-- ===== src/Discovery/Found.antt =====
-- What the joins of core/discovery_queue.py find.
use gestalt_workframe.Prelude.{
  refl, ap, ◌∙◌, String, some, ◌≡◌, inl, inr, arith, Option-cases, text_key,
}
use gestalt_workframe.Prelude.Assoc.{get, get-put_self}
use gestalt_workframe.Discovery.Rows.{
  Find, Source, Audit, Desk, Result, find_with_source, with_find, save,
}

pub found :
    (id : String) (d : Desk) (p : Find × Source)
    → find_with_source id d ≡ some p
    → get id d.finds ≡ some p.0
unfolding find_with_source
found id d p e = elim (Option-cases (get id d.finds)) [
  | inl absent ↦ ground (arith, e, absent)
  | inr (f, present) ↦ elim (Option-cases (get f.discovery_source_id d.sources)) [
    | inl gone ↦ ground (arith, e, present, gone)
    | inr (s, there) ↦ ground (arith, e, present, there)
  ]
]

pub found_source :
    (id : String) (d : Desk) (p : Find × Source)
    → find_with_source id d ≡ some p
    → get p.0.discovery_source_id d.sources ≡ some p.1
unfolding find_with_source
found_source id d p e = elim (Option-cases (get id d.finds)) [
  | inl absent ↦ ground (arith, e, absent)
  | inr (f, present) ↦ elim (Option-cases (get f.discovery_source_id d.sources)) [
    | inl gone ↦ ground (arith, e, present, gone)
    | inr (s, there) ↦ ground (arith, e, present, there)
  ]
]

found_back :
    (id : String) (d : Desk) (f : Find) (s : Source)
    → get id d.finds ≡ some f
    → get f.discovery_source_id d.sources ≡ some s
    → find_with_source id d ≡ some (f, s)
unfolding find_with_source
found_back id d f s present there = ground (arith, present, there)

-- a row that is written is found again, with the same source
pub found_saved :
    (id : String) (g : Find) (a : Audit) (d : Desk) (p : Find × Source)
    → find_with_source id d ≡ some p
    → g.discovery_source_id ≡ p.0.discovery_source_id
    → find_with_source id (save id g a d) ≡ some (g, p.1)
found_saved id g a d p e same =
    found_back id (save id g a d) g p.1 (get-put_self id g d.finds)
      (ap (λ k. get k d.sources) same ∙ found_source id d p e)

pub with_find_there :
    (id : String) (d : Desk) (next : Find → Result) (p : Find × Source)
    → find_with_source id d ≡ some p
    → with_find id d next ≡ next p.0
unfolding with_find
with_find_there id d next p e = rw (e, with_find) refl
