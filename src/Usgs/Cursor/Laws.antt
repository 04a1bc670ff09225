-- ===== src/Usgs/Cursor/Laws.antt =====
-- What a client may rely on of a cursor store.
use sentinel_chain.Base.{String, ◌≡◌, ◌≢◌, ◌⊎◌, inl, refl, Option, none, arith, eq_iff}
use sentinel_chain.Base.Dict.{lookup, insert, lookup-insert}
use sentinel_chain.Usgs.Cursor.{CursorStore, InMemory, in_memory}

-- A marker that was read before is there still, or has expired.
abbrev pub Kept : {A : Type 0} → Option A → Option A → Type 0
Kept before after = (after ≡ before) ⊎ (after ≡ none)

-- Only `record` writes a marker, and only that of its event; a marker may expire at any time.
pub record CursorLaws {X : Type 0} (store : CursorStore X) : Type 0 where
  pub marker : store.State → String → Option String
  pub seen_kept :
      (id j : String) (s : store.State) → Kept (marker s j) (marker (store.seen_marker id s).1 j)
  pub record_kept :
      (id m j : String) (s : store.State)
      → id ≢ j
      → Kept (marker s j) (marker (store.record_marker id m s).1 j)
  pub get_kept :
      (j : String) (s : store.State) → Kept (marker s j) (marker (store.get_cursor_ms s).1 j)
  pub set_kept :
      (v : _) (j : String) (s : store.State)
      → Kept (marker s j) (marker (store.set_cursor_ms v s).1 j)
  pub close_kept : (j : String) (s : store.State) → Kept (marker s j) (marker (store.aclose s).1 j)

pub record_other :
    (id m j : String) (s : InMemory)
    → id ≢ j
    → lookup j (insert id m s.markers) ≡ lookup j s.markers
record_other id m j s h = ground (arith, lookup-insert id j m s.markers, eq_iff id j)

-- The store for tests meets them.
abbrev pub in_memory_laws : (X : Type 0) → CursorLaws (in_memory X)
in_memory_laws X = record {
  marker = λ s id. lookup id s.markers;
  seen_kept = λ id j s. inl refl;
  record_kept = λ id m j s h. inl (record_other id m j s h);
  get_kept = λ j s. inl refl;
  set_kept = λ v j s. inl refl;
  close_kept = λ j s. inl refl;
}
