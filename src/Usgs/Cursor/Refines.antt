-- ===== src/Usgs/Cursor/Refines.antt =====
-- `RedisCursorStore` as an implementation of the store in memory, whose markers may expire.
use Prim.Native.String.{◌++◌ as text_append}
use text.Mathlib.Text.{starts_with}
use text.Mathlib.TextLemmas.{append_cancel_left}
use text.Mathlib.TextPositions.{starts_with-append}
use sentinel_chain.Base.{
  ◌<◌, String, str_eq, eq_iff, ◌≡◌, ◌≢◌, ◌⊎◌, inl, inr, refl, sym, ap, ◌∙◌, Bool-cases, true,
  Option, none, some, List, [], ◌∷◌,
}
use mathlib.Core.Path.{subst}
use sentinel_chain.Base.Int.{ℤ, pos, negsuc}
use sentinel_chain.Base.Result.{Result, ok, err}
use sentinel_chain.Base.Exec.{◌>>=◌, and_then}
use sentinel_chain.Base.Dict.{lookup, insert, lookup-insert_self}
use sentinel_chain.Usgs.Cursor.{
  InMemory, in_memory, Redis, redis_store, event_prefix, cursor_key, as_int,
}
use sentinel_chain.Usgs.Cursor.Laws.{Kept, record_other}
use sentinel_chain.Usgs.Cursor.Calls.{
  CursorCall, see, mark, read_cursor, write_cursor, Answer, marker, call, answers_of,
}

-- An expiry that Redis takes: none, or a positive number of seconds.
abbrev pub IsExpiry : Option ℤ → Type 0
IsExpiry none = Unit
IsExpiry (some (pos n)) = 0 < n
IsExpiry (some (negsuc n)) = ⊥

-- A Redis that answers: a key has the value last set, or has expired; one set without an expiry
-- lasts.
pub record RedisLaws {X : Type 0} (redis : Redis X) : Type 1 where
  pub value : redis.Db → String → Option String
  pub lasting : redis.Db → String → Type 0
  pub get_reads :
      (k : String) (db : redis.Db) → (redis.get k db).0 ≡ ok (value (redis.get k db).1 k)
  pub get_keeps : (k j : String) (db : redis.Db) → Kept (value db j) (value (redis.get k db).1 j)
  pub get_lasts :
      (k j : String) (db : redis.Db)
      → lasting db j
      → (value (redis.get k db).1 j ≡ value db j) × lasting (redis.get k db).1 j
  pub set_returns :
      (k v : String) (o : Option ℤ) (db : redis.Db) → IsExpiry o → (redis.set k v o db).0 ≡ ok tt
  pub set_writes :
      (k v : String) (o : Option ℤ) (db : redis.Db)
      → IsExpiry o
      → value (redis.set k v o db).1 k ≡ some v
  pub set_keeps :
      (k v j : String) (o : Option ℤ) (db : redis.Db)
      → k ≢ j
      → Kept (value db j) (value (redis.set k v o db).1 j)
  pub set_lasts :
      (k v j : String) (o : Option ℤ) (db : redis.Db)
      → k ≢ j
      → lasting db j
      → (value (redis.set k v o db).1 j ≡ value db j) × lasting (redis.set k v o db).1 j
  pub set_lasting : (k v : String) (db : redis.Db) → lasting (redis.set k v none db).1 k
  pub int_shown : (n : ℤ) → redis.int_of (redis.show_int n) ≡ ok n

abbrev event_key : String → String
event_key id = text_append event_prefix id

event_key-cursor_key : (id : String) → event_key id ≢ cursor_key
event_key-cursor_key id same =
    let begins : starts_with cursor_key event_prefix ≡ true =
      ap (λ k. starts_with k event_prefix) (sym same) ∙ starts_with-append event_prefix id in
    absurd (cc begins)

event_key-inj : (i j : String) → i ≢ j → event_key i ≢ event_key j
event_key-inj i j h same = h (append_cancel_left event_prefix i j same)

Kept-trans : {A : Type 0} {a b c : Option A} → Kept a b → Kept b c → Kept a c
Kept-trans (inl e) (inl f) = inl (f ∙ e)
Kept-trans (inl e) (inr f) = inr f
Kept-trans (inr e) (inl f) = inr (f ∙ e)
Kept-trans (inr e) (inr f) = inr f

abbrev shown : {X : Type 0} → Redis X → Option ℤ → Option String
shown redis none = none
shown redis (some n) = some (redis.show_int n)

-- An answer of the one store against one of the other: the same, or no marker.
abbrev pub IsAnswer : {X : Type 0} → Result X Answer → Result X Answer → Type 0
IsAnswer a b = (a ≡ b) ⊎ (a ≡ ok (marker none))

abbrev pub AreAnswers : {X : Type 0} → List (Result X Answer) → List (Result X Answer) → Type 0
AreAnswers [] [] = Unit
AreAnswers [] (b ∷ bs) = ⊥
AreAnswers (a ∷ rest) [] = ⊥
AreAnswers (a ∷ rest) (b ∷ bs) = IsAnswer a b × AreAnswers rest bs

module _ {X : Type 0} {redis : Redis X} (laws : RedisLaws redis) (ttl : ℤ) where
  -- A database that stands for a store in memory.
  pub record Represents (db : redis.Db) (s : InMemory) : Type 0 where
    pub markers : (id : String) → Kept (lookup id s.markers) (laws.value db (event_key id))
    pub at_cursor : laws.value db cursor_key ≡ shown redis s.cursor_ms
    pub lasts : laws.lasting db cursor_key

  get-Represents :
      (k : String) (db : redis.Db) (s : InMemory)
      → Represents db s
      → Represents (redis.get k db).1 s
  get-Represents k db s h = record {
    markers = λ id. Kept-trans (h.markers id) (laws.get_keeps k (event_key id) db);
    at_cursor = (laws.get_lasts k cursor_key db h.lasts).0 ∙ h.at_cursor;
    lasts = (laws.get_lasts k cursor_key db h.lasts).1;
  }

  marked :
      (id j m : String) (db : redis.Db) (s : InMemory)
      → IsExpiry (some ttl)
      → id ≡ j
      → laws.value (redis.set (event_key id) m (some ttl) db).1 (event_key j)
        ≡ lookup j (insert id m s.markers)
  marked id j m db s positive e =
      ap (λ k. laws.value (redis.set (event_key id) m (some ttl) db).1 (event_key k)) (sym e)
      ∙ laws.set_writes (event_key id) m (some ttl) db positive
      ∙ sym (lookup-insert_self id m s.markers)
      ∙ ap (λ k. lookup k (insert id m s.markers)) e

  mark-Represents :
      (id m : String) (db : redis.Db) (s : InMemory)
      → IsExpiry (some ttl)
      → Represents db s
      → Represents
          (redis.set (event_key id) m (some ttl) db).1
          (record s { markers = insert id m s.markers })
  mark-Represents id m db s positive h = record {
    markers = λ j. elim (Bool-cases (str_eq id j)) [
      | inl same ↦ inl (marked id j m db s positive ((eq_iff id j).0 same))
      | inr other ↦
          let apart : id ≢ j = λ e. absurd (cc ((eq_iff id j).1 e, other)) in
          Kept-trans (inl (sym (record_other id m j s apart))) (
            Kept-trans (h.markers j) (
              laws.set_keeps (event_key id) m (event_key j) (some ttl) db
                (event_key-inj id j apart)))
    ];
    at_cursor =
        (laws.set_lasts (event_key id) m cursor_key (some ttl) db (event_key-cursor_key id)
          h.lasts).0
        ∙ h.at_cursor;
    lasts =
        (laws.set_lasts (event_key id) m cursor_key (some ttl) db (event_key-cursor_key id)
          h.lasts).1;
  }

  write-Represents :
      (n : ℤ) (db : redis.Db) (s : InMemory)
      → Represents db s
      → Represents
          (redis.set cursor_key (redis.show_int n) none db).1
          (record s { cursor_ms = some n })
  write-Represents n db s h = record {
    markers = λ j.
        Kept-trans (h.markers j)
          (laws.set_keeps cursor_key _ (event_key j) none db (λ e. event_key-cursor_key j (sym e)));
    at_cursor = laws.set_writes cursor_key (redis.show_int n) none db tt;
    lasts = laws.set_lasting cursor_key (redis.show_int n) db;
  }

  of_shown : (o : Option ℤ) (db : redis.Db) → as_int redis ttl (shown redis o) db ≡ (ok o, db)
  unfolding ◌>>=◌
  of_shown none db = refl
  of_shown (some n) db = rw (laws.int_shown n)

  read_as :
      (o : Option ℤ) (r : Result X (Option String) × redis.Db)
      → r.0 ≡ ok (shown redis o)
      → and_then (as_int redis ttl) r ≡ (ok o, r.1)
  unfolding ◌>>=◌
  read_as o (ok t, db) h =
      let same : t ≡ shown redis o = cc in
      subst (λ u. as_int redis ttl u db ≡ (ok o, db)) (sym same) (of_shown o db)
  read_as o (err x, db) h = absurd (cc h)

  seen :
      (id : String) (db : redis.Db) (s : InMemory)
      → Represents db s
      → IsAnswer (call (redis_store redis ttl) (see id) db).0 (call (in_memory X) (see id) s).0
  seen id db s h =
      elim (Kept-trans (h.markers id) (laws.get_keeps (event_key id) (event_key id) db)) [
        | inl kept ↦ inl (rw (laws.get_reads (event_key id) db, kept))
        | inr gone ↦ inr (rw (laws.get_reads (event_key id) db, gone))
      ]

  -- One call of each.
  call-refines :
      (c : CursorCall) (db : redis.Db) (s : InMemory)
      → IsExpiry (some ttl)
      → Represents db s
      → IsAnswer (call (redis_store redis ttl) c db).0 (call (in_memory X) c s).0
        × Represents (call (redis_store redis ttl) c db).1 (call (in_memory X) c s).1
  unfolding ◌>>=◌
  call-refines (see id) db s positive h = (seen id db s h, get-Represents (event_key id) db s h)
  call-refines (mark id m) db s positive h = (
    inl (rw (laws.set_returns (event_key id) m (some ttl) db positive)),
    mark-Represents id m db s positive h,
  )
  call-refines read_cursor db s positive h =
      let got = redis.get cursor_key db in
      let reads : got.0 ≡ ok (shown redis s.cursor_ms) =
        laws.get_reads cursor_key db
        ∙ ap (λ v. ok v) ((laws.get_lasts cursor_key cursor_key db h.lasts).0 ∙ h.at_cursor) in
      let same = read_as s.cursor_ms got reads in
      (inl (rw same), rw same (get-Represents cursor_key db s h))
  call-refines (write_cursor n) db s positive h = (
    inl (rw (laws.set_returns cursor_key (redis.show_int n) none db tt)),
    write-Represents n db s h,
  )

  -- Over a Redis that answers, whose markers may expire at any time, and with a positive number of
  -- seconds for them to last: from a database that stands
  -- for a store in memory, any sequence of calls of `RedisCursorStore` gets the answers that
  -- `InMemoryCursorStore` gives to it, but that a marker may be missing.
  pub answers_of-AreAnswers :
      (calls : List CursorCall) (db : redis.Db) (s : InMemory)
      → IsExpiry (some ttl)
      → Represents db s
      → AreAnswers (answers_of (redis_store redis ttl) calls db) (answers_of (in_memory X) calls s)
  unfolding answers_of
  answers_of-AreAnswers [] db s positive h = tt
  answers_of-AreAnswers (c ∷ calls) db s positive h =
      let step = call-refines c db s positive h in
      (step.0, answers_of-AreAnswers calls _ _ positive step.1)
