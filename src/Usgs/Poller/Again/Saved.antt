-- ===== src/Usgs/Poller/Again/Saved.antt =====
-- What a poll leaves in the store for one event of its feed.
use sentinel_chain.Base.{
  ◌+◌, ◌≤◌, String, str_eq, eq_iff, ◌≡◌, refl, sym, ap, ◌∙◌, ◌⊎◌, inl, inr, true, Option, none,
  some, List, [], ◌∷◌, ◌++◌, All, All-append, Bool-cases, arith,
}
use mathlib.Core.Path.{subst}
use sentinel_chain.Base.Int.{ℤ}
use sentinel_chain.Base.Result.{ok}
use sentinel_chain.Base.Runtime.{Runtime}
use sentinel_chain.Base.Dict.{lookup}
use sentinel_chain.Usgs.Parser.{UsgsEvent}
use sentinel_chain.Usgs.Event.{source_version, payload_hash}
use sentinel_chain.Usgs.Cursor.{marker_for}
use sentinel_chain.Usgs.System.{System}
use sentinel_chain.Usgs.Producer.{contains}
use sentinel_chain.Usgs.Poller.{PollStats, Pending, is_marker}
use sentinel_chain.Usgs.Poller.Dedup.{saved_marker}

abbrev pub IsIn : {A : Type 0} → A → List A → Type 0
IsIn x [] = ⊥
IsIn x (y ∷ ys) = (y ≡ x) ⊎ IsIn x ys

pub All-IsIn : {A : Type 0} (P : A → Type 0) (xs : List A) (x : A) → All P xs → IsIn x xs → P x
All-IsIn P [] x h k = absurd k
All-IsIn P (y ∷ ys) x h (inl e) = subst P e h.0
All-IsIn P (y ∷ ys) x h (inr k) = All-IsIn P ys x h.1 k

pub All-of_IsIn :
    {A : Type 0} (P : A → Type 0) (xs : List A) → ((x : A) → IsIn x xs → P x) → All P xs
All-of_IsIn P [] h = tt
All-of_IsIn P (x ∷ xs) h = (h x (inl refl), All-of_IsIn P xs (λ y k. h y (inr k)))

-- An event of the id waits.
abbrev pub IsWaiting : String → List Pending → Type 0
IsWaiting id [] = ⊥
IsWaiting id (p ∷ ps) = (p.0 ≡ id) ⊎ IsWaiting id ps

IsWaiting-left : (id : String) (ps qs : List Pending) → IsWaiting id ps → IsWaiting id (ps ++ qs)
IsWaiting-left id [] qs h = absurd h
IsWaiting-left id (p ∷ ps) qs (inl e) = inl e
IsWaiting-left id (p ∷ ps) qs (inr h) = inr (IsWaiting-left id ps qs h)

IsWaiting-last : (ps : List Pending) (p : Pending) → IsWaiting p.0 (ps ++ p ∷ [])
IsWaiting-last [] p = inl refl
IsWaiting-last (q ∷ ps) p = inr (IsWaiting-last ps p)

is_marker-same : (o : Option String) (m : String) → is_marker o m ≡ true → o ≡ some m
is_marker-same none m h = absurd (cc h)
is_marker-same (some seen) m h = ap some ((eq_iff seen m).0 h)

module _ (id marker : String) where
  -- Each event of the id that waits has the marker.
  abbrev pub AreMarked : List Pending → Type 0
  AreMarked pending = All (λ (p : Pending). p.0 ≡ id → p.1 ≡ marker) pending

  -- The confirming loop saves it.
  pub saved_marker-marked :
      {R : Runtime} {X : Type 0} (outside : System R X) (delivered : List String)
      (pending : List Pending) (old : Option String)
      → AreMarked pending
      → All (λ (p : Pending). contains p.0 delivered ≡ true) pending
      → (old ≡ some marker) ⊎ IsWaiting id pending
      → saved_marker outside id delivered pending old ≡ some marker
  saved_marker-marked outside delivered [] old marked all (inl e) = e
  saved_marker-marked outside delivered [] old marked all (inr w) = absurd w
  saved_marker-marked outside delivered ((j, m, u) ∷ rest) old marked all h =
      rw all.0 (elim (Bool-cases (str_eq j id)) [
        | inl same ↦ rw same (
            saved_marker-marked outside delivered rest (some m) marked.1 all.1
              (inl (ap some (marked.0 ((eq_iff j id).0 same)))))
        | inr other ↦ rw other (
            saved_marker-marked outside delivered rest old marked.1 all.1 (elim h [
              | inl e ↦ inl e
              | inr w ↦ elim w [ inl e ↦ ground (arith, eq_iff j id) | inr k ↦ inr k ]
            ]))
      ])

  -- The store has the marker, or an event of the id waits, or a record was invalid.
  abbrev pub Settled : PollStats × List Pending → List (String × String) → Type 0
  Settled acc markers =
      (lookup id markers ≡ some marker) ⊎ (IsWaiting id acc.1 ⊎ (1 ≤ acc.0.invalid))

module _ {R : Runtime} {X : Type 0} (outside : System R X) (e₀ : UsgsEvent R)
    (version hash : String) (versioned : source_version R e₀ ≡ ok version)
    (hashed : payload_hash R outside.dumps outside.sha256 e₀ ≡ ok hash) where
  abbrev marker₀ : String
  marker₀ = marker_for version hash

  -- While the events are visited, with `rest` left: the event is among them, or settled.
  pub record Visited (rest : List (UsgsEvent R)) (acc : PollStats × List Pending)
      (markers : List (String × String)) : Type 0 where
    pub agree : All (λ (e : UsgsEvent R). e.source_event_id ≡ e₀.source_event_id → e ≡ e₀) rest
    pub marked : AreMarked e₀.source_event_id (marker_for version hash) acc.1
    pub found : IsIn e₀ rest ⊎ Settled e₀.source_event_id (marker_for version hash) acc markers

  same_marker :
      {e : UsgsEvent R} {v h : String}
      → e ≡ e₀
      → source_version R e ≡ ok v
      → payload_hash R outside.dumps outside.sha256 e ≡ ok h
      → marker_for v h ≡ marker_for version hash
  same_marker {e} {v} {h} same hv hh =
      let same_version : v ≡ version = cc in let same_hash : h ≡ hash = cc in cc

  pub Visited-invalid :
      {e : UsgsEvent R} {rest : List (UsgsEvent R)} {st : PollStats} {pending : List Pending}
      {markers : List (String × String)}
      → Visited (e ∷ rest) (st, pending) markers
      → Visited rest (record st { invalid = st.invalid + 1 }, pending) markers
  Visited-invalid h = record {
    agree = h.agree.1;
    marked = h.marked;
    found = inr (inr (inr (omega arith)));
  }

  pub Visited-duplicate :
      {e : UsgsEvent R} {rest : List (UsgsEvent R)} {st : PollStats} {pending : List Pending}
      {markers : List (String × String)} {v h : String} {seen : Option String}
      → Visited (e ∷ rest) (st, pending) markers
      → source_version R e ≡ ok v
      → payload_hash R outside.dumps outside.sha256 e ≡ ok h
      → lookup e.source_event_id markers ≡ seen
      → is_marker seen (marker_for v h) ≡ true
      → Visited rest (record st { duplicates = st.duplicates + 1 }, pending) markers
  Visited-duplicate {e} {markers = markers} {v = v} {h = hash'} {seen = seen} f hv hh looked is_it =
      record {
        agree = f.agree.1;
        marked = f.marked;
        found = elim f.found [
          | inl (inl same) ↦ inr (
              inl (
                ap (λ (x : UsgsEvent R). lookup x.source_event_id markers) (sym same)
                ∙ looked
                ∙ is_marker-same seen (marker_for v hash') is_it
                ∙ ap some (same_marker same hv hh)))
          | inl (inr k) ↦ inl k
          | inr k ↦ inr k
        ];
      }

  pub Visited-pending :
      {e : UsgsEvent R} {rest : List (UsgsEvent R)} {st : PollStats} {pending : List Pending}
      {markers : List (String × String)} {v h : String} (updated : ℤ)
      → Visited (e ∷ rest) (st, pending) markers
      → source_version R e ≡ ok v
      → payload_hash R outside.dumps outside.sha256 e ≡ ok h
      → Visited rest (st, pending ++ (e.source_event_id, marker_for v h, updated) ∷ []) markers
  Visited-pending {e} {pending = pending} {v = v} {h = hash'} updated f hv hh = record {
    agree = f.agree.1;
    marked =
        All-append (λ (p : Pending). p.0 ≡ e₀.source_event_id → p.1 ≡ marker_for version hash)
          pending _ f.marked ((λ same. same_marker (f.agree.0 same) hv hh), tt);
    found = elim f.found [
      | inl (inl same) ↦ inr (
          inr (
            inl (
              subst
                (λ (x : UsgsEvent R).
                  IsWaiting x.source_event_id
                    (pending ++ (e.source_event_id, marker_for v hash', updated) ∷ []))
                same (IsWaiting-last pending (e.source_event_id, marker_for v hash', updated)))))
      | inl (inr k) ↦ inl k
      | inr (inl k) ↦ inr (inl k)
      | inr (inr (inl w)) ↦ inr (inr (inl (IsWaiting-left e₀.source_event_id pending _ w)))
      | inr (inr (inr k)) ↦ inr (inr (inr k))
    ];
  }
