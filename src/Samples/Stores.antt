-- ===== src/Samples/Stores.antt =====
-- A Redis whose keys expire as it is read, and whose integers are written by the lengths of texts.
use Prim.Native.String.{len, ◌++◌}
use text.Mathlib.TextPositions.{len-append}
use sentinel_chain.Base.{
  str_eq, ℕ, zero, suc, ◌+◌, ◌*◌, ◌/◌, ◌%◌, String, eq_iff, ◌≡◌, ◌≢◌, refl, sym, ap, ◌∙◌, inl, inr,
  Bool, Bool-cases, true, false, Option, none, some, [], ◌∷◌, if◌then◌else◌, arith, ◌==◌,
}
use sentinel_chain.Base.Int.{ℤ, pos, negsuc}
use sentinel_chain.Base.Result.{Result, ok, err}
use sentinel_chain.Base.Dict.{Dict, lookup, insert, lookup-insert, lookup-insert_self}
use sentinel_chain.Usgs.Cursor.{Redis}
use sentinel_chain.Usgs.Cursor.Laws.{Kept}
use sentinel_chain.Usgs.Cursor.Refines.{RedisLaws, IsExpiry}
use mathlib.Core.Path.{subst}

-- `n` letters
abbrev letters : ℕ → String
letters zero = ""
letters (suc n) = "a" ++ letters n

len-letters : (n : ℕ) → len (letters n) ≡ n
len-letters zero = refl
len-letters (suc n) = omega (arith, len-append "a" (letters n), len-letters n)

-- An even length is that of a number from 0, an odd one of a negative number.
abbrev write : ℤ → String
write (pos n) = letters (2 * n)
write (negsuc n) = letters (2 * n + 1)

abbrev number_of : ℕ → ℤ
number_of n = if n % 2 == 0 then pos (n / 2) else negsuc (n / 2)

even_rest : (n : ℕ) → (2 * n) % 2 ≡ 0
even_rest n = omega arith

even_half : (n : ℕ) → (2 * n) / 2 ≡ n
even_half n = omega arith

odd_rest : (n : ℕ) → (2 * n + 1) % 2 ≡ 1
odd_rest n = omega arith

odd_half : (n : ℕ) → (2 * n + 1) / 2 ≡ n
odd_half n = omega arith

pub number_of-write : (n : ℤ) → number_of (len (write n)) ≡ n
number_of-write (pos n) = rw (len-letters (2 * n), even_rest n, even_half n)
number_of-write (negsuc n) = rw (len-letters (2 * n + 1), odd_rest n, odd_half n)

-- The value of a key, if it is there, and whether it lasts.
abbrev pub Entry : Type 0
Entry = Option String × Bool

-- The keys, and how often the database is read before those that do not last expire.
pub record Keys : Type 0 where
  pub entries : Dict Entry
  pub reads_left : ℕ

abbrev pub faded : Option Entry → Option Entry
faded none = none
faded (some (v, true)) = some (v, true)
faded (some (v, false)) = some (none, false)

abbrev pub read : Option Entry → Option String
read none = none
read (some e) = e.0

abbrev pub Lasts : Option Entry → Type 0
Lasts none = Unit
Lasts (some (v, b)) = b ≡ true

abbrev pub fade : Entry → Entry
fade (v, true) = (v, true)
fade (v, false) = (none, false)

unfoldable pub expire : Dict Entry → Dict Entry
expire [] = []
expire ((k, e) ∷ d) = (k, fade e) ∷ expire d

pub faded-some : (e : Entry) → some (fade e) ≡ faded (some e)
faded-some (v, true) = refl
faded-some (v, false) = refl

pub lookup-expire : (k : String) (d : Dict Entry) → lookup k (expire d) ≡ faded (lookup k d)
unfolding expire lookup
lookup-expire k [] = refl
lookup-expire k ((j, e) ∷ d) = elim (Bool-cases (str_eq j k)) [
  | inl same ↦ rw same (faded-some e)
  | inr other ↦ rw other (lookup-expire k d)
]

pub faded-Kept : (o : Option Entry) → Kept (read o) (read (faded o))
faded-Kept none = inl refl
faded-Kept (some (v, true)) = inl refl
faded-Kept (some (v, false)) = inr refl

pub faded-Lasts : (o : Option Entry) → Lasts o → faded o ≡ o
faded-Lasts none h = refl
faded-Lasts (some (v, true)) h = refl
faded-Lasts (some (v, false)) h = absurd (cc h)

-- The database once it is read.
abbrev pub aged : ℕ → Dict Entry → Keys
aged zero d = record { entries = expire d; reads_left = 0 }
aged (suc n) d = record { entries = d; reads_left = n }

pub aged-Kept :
    (n : ℕ) (j : String) (d : Dict Entry)
    → Kept (read (lookup j d)) (read (lookup j (aged n d).entries))
aged-Kept zero j d = rw (lookup-expire j d) (faded-Kept (lookup j d))
aged-Kept (suc n) j d = inl refl

pub aged-Lasts :
    (n : ℕ) (j : String) (d : Dict Entry)
    → Lasts (lookup j d)
    → lookup j (aged n d).entries ≡ lookup j d
aged-Lasts zero j d h = lookup-expire j d ∙ faded-Lasts (lookup j d) h
aged-Lasts (suc n) j d h = refl

-- The database with a key set, as Redis takes its expiry.
abbrev pub stored : String → String → Option ℤ → Keys → Result String (Unit {0}) × Keys
stored k v none db = (ok tt, record db { entries = insert k (some v, true) db.entries })
stored k v (some (pos zero)) db = (err "invalid expire time", db)
stored k v (some (pos (suc n))) db =
    (ok tt, record { entries = insert k (some v, false) db.entries; reads_left = n })
stored k v (some (negsuc n)) db = (err "invalid expire time", db)

-- A second passes with each read.
abbrev pub dict_redis : Redis String
dict_redis = record {
  Db = Keys;
  get = λ k db. let db' = aged db.reads_left db.entries in (ok (read (lookup k db'.entries)), db');
  set = stored;
  ping = λ db. (ok true, db);
  aclose = λ db. (ok tt, db);
  int_of = λ s. ok (number_of (len s));
  show_int = write;
}

pub lookup_other :
    (k j : String) (e : Entry) (d : Dict Entry) → k ≢ j → lookup j (insert k e d) ≡ lookup j d
lookup_other k j e d h = ground (arith, lookup-insert k j e d, eq_iff k j)

pub stored-ok :
    (k v : String) (o : Option ℤ) (db : Keys)
    → IsExpiry o
    → ((stored k v o db).0 ≡ ok tt) × (read (lookup k (stored k v o db).1.entries) ≡ some v)
stored-ok k v none db h = (refl, ap read (lookup-insert_self k (some v, true) db.entries))
stored-ok k v (some (pos zero)) db h = absurd (omega (arith, h))
stored-ok k v (some (pos (suc n))) db h =
    (refl, ap read (lookup-insert_self k (some v, false) db.entries))
stored-ok k v (some (negsuc n)) db h = absurd h

pub stored-other :
    (k v j : String) (o : Option ℤ) (db : Keys)
    → k ≢ j
    → lookup j (stored k v o db).1.entries ≡ lookup j db.entries
stored-other k v j none db h = lookup_other k j (some v, true) db.entries h
stored-other k v j (some (pos zero)) db h = refl
stored-other k v j (some (pos (suc n))) db h = lookup_other k j (some v, false) db.entries h
stored-other k v j (some (negsuc n)) db h = refl

pub stored-Lasts : (k v : String) (d : Dict Entry) → Lasts (lookup k (insert k (some v, true) d))
stored-Lasts k v d = subst Lasts (sym (lookup-insert_self k (some v, true) d)) refl

abbrev pub dict_redis_laws : RedisLaws dict_redis
dict_redis_laws = record {
  value = λ db k. read (lookup k db.entries);
  lasting = λ db k. Lasts (lookup k db.entries);
  get_reads = λ k db. refl;
  get_keeps = λ k j db. aged-Kept db.reads_left j db.entries;
  get_lasts = λ k j db h.
      let same = aged-Lasts db.reads_left j db.entries h in
      (ap read same, subst Lasts (sym same) h);
  set_returns = λ k v o db h. (stored-ok k v o db h).0;
  set_writes = λ k v o db h. (stored-ok k v o db h).1;
  set_keeps = λ k v j o db h. inl (ap read (stored-other k v j o db h));
  set_lasts = λ k v j o db h l.
      let same = stored-other k v j o db h in (ap read same, subst Lasts (sym same) l);
  set_lasting = λ k v db. stored-Lasts k v db.entries;
  int_shown = λ n. ap (λ m. ok m) (number_of-write n);
}
