-- ===== src/Handles/Places.antt =====
-- A service that is found by its path stands where it is said to stand.
use npupnp.Common.{
  ℕ, suc, ◌+◌, ◌≡◌, Option, none, some, [], ◌∷◌, Bytes, get_elem?, arith, Bool-cases, Option-cases,
  inl, inr, subst,
}
use npupnp.Uri.HostPort.{Resolver}
use npupnp.Handles.{
  HandleInfo, Handles, Found, is_device, found_at, service_for_path, path_slot,
  get_device_handle_info_for_path,
}

abbrev pub IsPlaced : Handles → Found → Type 0
IsPlaced hs f =
    (get_elem? hs f.index ≡ some (some f.info))
    × (get_elem? f.info.service_table f.position ≡ some f.service)

found_at-place :
    (i : ℕ) (h : HandleInfo) (k : Option ℕ) (f : Found)
    → found_at i h k ≡ some f
    → (f.index ≡ i) × (f.info ≡ h) × (get_elem? h.service_table f.position ≡ some f.service)
unfolding found_at
found_at-place i h none f e = cc
found_at-place i h (some k) f e = elim (Option-cases (get_elem? h.service_table k)) [
  | inl lost ↦ ground (arith, e, lost)
  | inr (si, at) ↦ ground (arith, e, at)
]

path_slot-place :
    (r : Resolver) (path : Bytes) (i : ℕ) (hs : Handles) (f : Found)
    → path_slot r path i hs ≡ some f
    → (k : ℕ) × (f.index ≡ i + k)
      × (get_elem? hs k ≡ some (some f.info))
      × (get_elem? f.info.service_table f.position ≡ some f.service)
unfolding path_slot
path_slot-place r path i [] f e = cc
path_slot-place r path i (none ∷ hs) f e =
    let (k, a, b, c) = path_slot-place r path (suc i) hs f e in (suc k, omega arith, b, c)
path_slot-place r path i (some h ∷ hs) f e = elim (Bool-cases (is_device h.htype)) [
  | inr other ↦
      let (k, a, b, c) = path_slot-place r path (suc i) hs f (ground (arith, e, other)) in
      (suc k, omega arith, b, c)
  | inl dev ↦ elim (Option-cases (found_at i h (service_for_path r path h))) [
    | inl lost ↦
        let (k, a, b, c) = path_slot-place r path (suc i) hs f (ground (arith, e, dev, lost)) in
        (suc k, omega arith, b, c)
    | inr (g, here) ↦
        let same : g ≡ f = ground (arith, e, dev, here) in
        let at = found_at-place i h (service_for_path r path h) g here in
        (0, ground (arith, same, at), ground (arith, same, at), ground (arith, same, at))
  ]
]

-- The handle and the service are those at their positions in the table.
pub path-IsPlaced :
    (r : Resolver) (path : Bytes) (hs : Handles) (f : Found)
    → get_device_handle_info_for_path r path hs ≡ some f
    → IsPlaced hs f
unfolding get_device_handle_info_for_path
path-IsPlaced r path [] f e = ground (arith, e, path_slot-place r path 1 [] f)
path-IsPlaced r path (h ∷ hs) f e =
    let (k, a, b, c) = path_slot-place r path 1 hs f e in
    (subst (λ m. get_elem? (h ∷ hs) m ≡ some (some f.info)) {x = suc k} (omega arith) b, c)
