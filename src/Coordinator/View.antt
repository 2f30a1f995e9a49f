-- ===== src/Coordinator/View.antt =====
-- The debug view of the network in src/coordinator.rs, which `GET /network` of src/bin/coordinatord.rs
-- serves.
use mathlib.Core.List.{Perm}
use mathlib.Core.List.Perm
use mesh_vpn.Base.{
  ◌≡◌, refl, Bool, true, false, List, [], ◌∷◌, Bytes, ltb, ◌==◌, if◌then◌else◌, arith, inl, inr,
  Bool-cases,
}
use mesh_vpn.Coordinator.{Nodes, NodeRecord}

-- `str::cmp`: the order of the bytes, the first difference first.
unfoldable pub not_after : Bytes → Bytes → Bool
not_after [] t = true
not_after (a ∷ s) [] = false
not_after (a ∷ s) (b ∷ t) =
    let rest = not_after s t in if ltb a b then true else if a == b then rest else false

abbrev pub comes_first : NodeRecord → NodeRecord → Bool
comes_first n m = not_after n.allowed_ip m.allowed_ip

-- `sort_by`, which keeps the order of equal addresses.
unfoldable pub insert_sorted : NodeRecord → List NodeRecord → List NodeRecord
insert_sorted n [] = n ∷ []
insert_sorted n (m ∷ ms) =
    let rest = insert_sorted n ms in if comes_first n m then n ∷ m ∷ ms else m ∷ rest

unfoldable pub sort_by : List NodeRecord → List NodeRecord
unfolding insert_sorted
sort_by [] = []
sort_by (n ∷ ns) = insert_sorted n (sort_by ns)

-- `HashMap::values`
abbrev pub values : Nodes → List NodeRecord
values [] = []
values ((k, n) ∷ nodes) = n ∷ values nodes

unfoldable pub network_view : Nodes → List NodeRecord
unfolding sort_by
network_view nodes = sort_by (values nodes)

insert_sorted-Perm : (n : NodeRecord) (ns : List NodeRecord) → Perm (insert_sorted n ns) (n ∷ ns)
unfolding insert_sorted
insert_sorted-Perm n [] = Perm.refl (n ∷ [])
insert_sorted-Perm n (m ∷ ms) = elim (Bool-cases (comes_first n m)) [
  | inl h ↦ rw h (Perm.refl (n ∷ m ∷ ms))
  | inr h ↦ rw h (Perm.trans (Perm.cons m (insert_sorted-Perm n ms)) (Perm.swap n m ms))
]

sort_by-Perm : (ns : List NodeRecord) → Perm (sort_by ns) ns
unfolding sort_by
sort_by-Perm [] = Perm.refl []
sort_by-Perm (n ∷ ns) =
    Perm.trans (insert_sorted-Perm n (sort_by ns)) (Perm.cons n (sort_by-Perm ns))

abbrev pub IsSorted : List NodeRecord → Type 0
IsSorted [] = Unit
IsSorted (n ∷ []) = Unit
IsSorted (n ∷ m ∷ ms) = (comes_first n m ≡ true) × IsSorted (m ∷ ms)

not_after-total : (s t : Bytes) → not_after s t ≡ false → not_after t s ≡ true
unfolding not_after
not_after-total [] t h = absurd (cc)
not_after-total (a ∷ s) [] h = refl
not_after-total (a ∷ s) (b ∷ t) h = ground (arith, h, not_after-total s t)

insert_sorted-IsSorted :
    (n : NodeRecord) (ns : List NodeRecord) → IsSorted ns → IsSorted (insert_sorted n ns)
unfolding insert_sorted
insert_sorted-IsSorted n [] h = tt
insert_sorted-IsSorted n (m ∷ []) h = ground (arith, not_after-total n.allowed_ip m.allowed_ip)
insert_sorted-IsSorted n (m ∷ l ∷ ls) (h, k) =
    ground
      (arith, h, k, insert_sorted-IsSorted n (l ∷ ls) k, not_after-total n.allowed_ip m.allowed_ip)

sort_by-IsSorted : (ns : List NodeRecord) → IsSorted (sort_by ns)
unfolding sort_by
sort_by-IsSorted [] = tt
sort_by-IsSorted (n ∷ ns) = insert_sorted-IsSorted n (sort_by ns) (sort_by-IsSorted ns)

-- The view has every node once, in the order of the texts of the addresses.
pub network_view-IsSorted :
    (nodes : Nodes) → Perm (network_view nodes) (values nodes) × IsSorted (network_view nodes)
unfolding network_view
network_view-IsSorted nodes = (sort_by-Perm (values nodes), sort_by-IsSorted (values nodes))
