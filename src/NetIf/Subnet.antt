-- ===== src/NetIf/Subnet.antt =====
-- What `interfaceForAddress4` finds.
use npupnp.Common.{
  ◌≡◌, refl, Bool, true, false, Option, none, some, List, [], ◌∷◌, ◌==◌, length, Bytes, arith, inl,
  inr, Bool-cases, All, ◌⊎◌,
}
use npupnp.NetIf.{
  IpAddr, Interface, in_subnet, address_for, first_for, or_later, interface_for_address4,
}

-- The address is one of these and the peer is in its subnet.
abbrev Serves : Bool → Bytes → IpAddr → List (IpAddr × IpAddr) → Type 0
Serves only peer a [] = ⊥
Serves only peer a (x ∷ more) =
    ((in_subnet only peer x ≡ true) × (x.0 ≡ a)) ⊎ Serves only peer a more

abbrev NoneServes : Bool → Bytes → List (IpAddr × IpAddr) → Type 0
NoneServes only peer xs = All (λ x. in_subnet only peer x ≡ false) xs

address_for-Serves :
    (only : Bool) (peer : Bytes) (xs : List (IpAddr × IpAddr)) (a : IpAddr)
    → address_for only peer xs ≡ some a
    → Serves only peer a xs
unfolding address_for
address_for-Serves only peer [] a h = cc
address_for-Serves only peer (x ∷ xs) a h = elim (Bool-cases (in_subnet only peer x)) [
  | inl t ↦ inl (t, ground arith)
  | inr f ↦ inr (address_for-Serves only peer xs a (ground arith))
]

address_for-NoneServes :
    (only : Bool) (peer : Bytes) (xs : List (IpAddr × IpAddr))
    → address_for only peer xs ≡ none
    → NoneServes only peer xs
unfolding address_for
address_for-NoneServes only peer [] h = tt
address_for-NoneServes only peer (x ∷ xs) h = elim (Bool-cases (in_subnet only peer x)) [
  | inl t ↦ absurd (ground arith)
  | inr f ↦ (f, address_for-NoneServes only peer xs (ground arith))
]

-- The interface is one of these.
abbrev pub IsAmong : Interface → List Interface → Type 0
IsAmong itf [] = ⊥
IsAmong itf (x ∷ xs) = (x ≡ itf) ⊎ IsAmong itf xs

-- What is found is an interface of the list and an address of it that has the peer in its subnet;
-- when nothing is found, no address of any interface has it.
abbrev pub Outcome : Bool → Bytes → List Interface → Option (Interface × IpAddr) → Type 0
Outcome only peer vifs none = All (λ itf. NoneServes only peer itf.addresses) vifs
Outcome only peer vifs (some (itf, a)) = IsAmong itf vifs × Serves only peer a itf.addresses

Outcome-later :
    (only : Bool) (peer : Bytes) (x : Interface) (vifs : List Interface)
    (o : Option (Interface × IpAddr))
    → NoneServes only peer x.addresses
    → Outcome only peer vifs o
    → Outcome only peer (x ∷ vifs) o
Outcome-later only peer x vifs none h k = (h, k)
Outcome-later only peer x vifs (some (itf, a)) h k = (inr k.0, k.1)

or_later-Outcome :
    (only : Bool) (peer : Bytes) (x : Interface) (vifs : List Interface) (a : Option IpAddr)
    (later : Option (Interface × IpAddr))
    → address_for only peer x.addresses ≡ a
    → Outcome only peer vifs later
    → Outcome only peer (x ∷ vifs) (or_later x a later)
or_later-Outcome only peer x vifs none later h k =
    Outcome-later only peer x vifs later (address_for-NoneServes only peer x.addresses h) k
or_later-Outcome only peer x vifs (some a) later h k =
    (inl refl, address_for-Serves only peer x.addresses a h)

first_for-Outcome :
    (only : Bool) (peer : Bytes) (vifs : List Interface)
    → Outcome only peer vifs (first_for only peer vifs)
unfolding first_for
first_for-Outcome only peer [] = tt
first_for-Outcome only peer (x ∷ vifs) =
    or_later-Outcome only peer x vifs (address_for only peer x.addresses) (first_for only peer vifs)
      refl (first_for-Outcome only peer vifs)

-- The interface found for a peer's address of the first family is one of the list, with an
-- address of it that has the peer in its subnet by its mask, which is not zero (a mask of ones
-- serves every peer if there is one interface); and if nothing is found, no address of any
-- interface of the list has the peer in its subnet.
pub interface_for_address4-Outcome :
    (peer : Bytes) (vifs : List Interface)
    → Outcome (length vifs == 1) peer vifs (interface_for_address4 peer vifs)
unfolding interface_for_address4
interface_for_address4-Outcome peer vifs = first_for-Outcome (length vifs == 1) peer vifs
