-- ===== src/GenaDevice/Handlers/Valid.antt =====
-- Every service of every device stays valid, whatever GENA request comes in.
use npupnp.Common.{
  ℕ, zero, suc, ◌≡◌, Option, none, some, List, [], ◌∷◌, ◌++◌, inl, inr, ◌⊎◌, Bytes, codes, All, set,
  get_elem?, arith, Bool-cases, Option-cases, subst,
}
use npupnp.Uri.HostPort.{Resolver}
use npupnp.ServiceTable.{ServiceInfo, find_sid}
use npupnp.ServiceTable.Invariant.{IsValid}
use npupnp.Handles.{HandleInfo, Handles, Found, get_device_handle_info_for_path, store}
use npupnp.Handles.Places.{path-IsPlaced, IsPlaced}
use npupnp.GenaDevice.Request.{Request, Response, has_header, http_precondition_failed}
use npupnp.GenaDevice.Callbacks.{NetIf}
use npupnp.GenaDevice.Subscribe.{subscribe_refusal, named_sid, renew_service, unsubscribe_service}
use npupnp.GenaDevice.Subscribe.Limits.{subscribes, renews, unsubscribes, request-IsValid}
use npupnp.GenaDevice.Handlers.{
  Method, subscribe_method, unsubscribe_method, notify_method, other_method, with_found,
  subscribe_found, subscribe_checked, renew_named, unsubscribe_named,
  gena_process_subscription_request, gena_process_subscription_renewal_request,
  gena_process_unsubscribe_request, gena_callback,
}

abbrev SlotIsValid : Option HandleInfo → Type 0
SlotIsValid none = Unit {0}
SlotIsValid (some h) = All (IsValid h.max_subscriptions) h.service_table

-- Every service of every handle is valid, with the handle's maximum.
abbrev pub HandlesAreValid : Handles → Type 0
HandlesAreValid hs = All SlotIsValid hs

abbrev SlotLacks : Bytes → Option HandleInfo → Type 0
SlotLacks sid none = Unit {0}
SlotLacks sid (some h) = All (λ s. find_sid sid s.subscription_list ≡ none) h.service_table

-- No service has a subscription with this SID.
abbrev pub HandlesLack : Bytes → Handles → Type 0
HandlesLack sid hs = All (SlotLacks sid) hs

module _ {A : Type 0} where
  All-get_elem? :
      (P : A → Type 0) (xs : List A) (i : ℕ) (x : A) → All P xs → get_elem? xs i ≡ some x → P x
  All-get_elem? P [] i x a e = cc
  All-get_elem? P (y ∷ ys) zero x a e = subst P (ground (arith, e)) a.0
  All-get_elem? P (y ∷ ys) (suc i) x a e = All-get_elem? P ys i x a.1 e

  All-set : (P : A → Type 0) (xs : List A) (i : ℕ) (x : A) → All P xs → P x → All P (set xs i x)
  All-set P [] i x a p = tt
  All-set P (y ∷ ys) zero x a p = (p, a.1)
  All-set P (y ∷ ys) (suc i) x a p = (a.0, All-set P ys i x a.1 p)

found-IsValid :
    (f : Found) (hs : Handles)
    → IsPlaced hs f
    → HandlesAreValid hs
    → IsValid f.info.max_subscriptions f.service
found-IsValid f hs placed valid =
    All-get_elem? (IsValid f.info.max_subscriptions) f.info.service_table f.position f.service
      (All-get_elem? SlotIsValid hs f.index (some f.info) valid placed.0) placed.1

found-lacks :
    (sid : Bytes) (f : Found) (hs : Handles)
    → IsPlaced hs f
    → HandlesLack sid hs
    → find_sid sid f.service.subscription_list ≡ none
found-lacks sid f hs placed lack =
    All-get_elem? (λ s. find_sid sid s.subscription_list ≡ none) f.info.service_table f.position
      f.service (All-get_elem? (SlotLacks sid) hs f.index (some f.info) lack placed.0) placed.1

store-IsValid :
    (f : Found) (service : ServiceInfo) (hs : Handles)
    → IsPlaced hs f
    → HandlesAreValid hs
    → IsValid f.info.max_subscriptions service
    → HandlesAreValid (store f service hs)
unfolding store
store-IsValid f service hs placed valid v = All-set SlotIsValid hs f.index _ valid (
    All-set (IsValid f.info.max_subscriptions) f.info.service_table f.position service
      (All-get_elem? SlotIsValid hs f.index (some f.info) valid placed.0) v)

with_found-IsValid :
    (r : Resolver) (path : Bytes) (code : ℕ) (hs : Handles)
    (handle : Found → ServiceInfo × Response)
    → HandlesAreValid hs
    → ((f : Found)
        → IsValid f.info.max_subscriptions f.service
        → IsValid f.info.max_subscriptions (handle f).0)
    → HandlesAreValid (with_found code hs (get_device_handle_info_for_path r path hs) handle).0
with_found-IsValid r path code hs handle valid keeps =
    elim (Option-cases (get_device_handle_info_for_path r path hs)) [
      | inl lost ↦ simp (lost) valid
      | inr (f, found) ↦
          let placed = path-IsPlaced r path hs f found in
          simp (found) (
            store-IsValid f (handle f).0 hs placed valid
              (keeps f (found-IsValid f hs placed valid)))
    ]

subscribe-IsValid :
    (r : Resolver) (n : NetIf) (now : ℕ) (uuid : Bytes) (req : Request) (hs : Handles)
    → HandlesAreValid hs
    → HandlesLack (codes "uuid:" ++ uuid) hs
    → HandlesAreValid
        (subscribe_found r n now uuid req hs (get_device_handle_info_for_path r req.url hs)).0
unfolding subscribe_found
subscribe-IsValid r n now uuid req hs valid new =
    elim (Option-cases (get_device_handle_info_for_path r req.url hs)) [
      | inl lost ↦ simp (lost) valid
      | inr (f, found) ↦
          let placed = path-IsPlaced r req.url hs f found in
          simp (found) (
            store-IsValid f _ hs placed valid (
              request-IsValid r n f.info f.service (subscribes now (codes "uuid:" ++ uuid) req)
                (found-lacks (codes "uuid:" ++ uuid) f hs placed new)
                (found-IsValid f hs placed valid)))
    ]

checked-IsValid :
    (r : Resolver) (n : NetIf) (now : ℕ) (uuid : Bytes) (req : Request) (hs : Handles)
    (refusal : Option ℕ)
    → HandlesAreValid hs
    → HandlesLack (codes "uuid:" ++ uuid) hs
    → HandlesAreValid (subscribe_checked r n now uuid req hs refusal).0
checked-IsValid r n now uuid req hs none valid new = subscribe-IsValid r n now uuid req hs valid new
checked-IsValid r n now uuid req hs (some code) valid new = valid

renew_named-IsValid :
    (r : Resolver) (n : NetIf) (now : ℕ) (req : Request) (hs : Handles) (who : Bytes ⊎ ℕ)
    → HandlesAreValid hs
    → HandlesAreValid (renew_named r now req hs who).0
renew_named-IsValid r n now req hs (inr code) valid = valid
renew_named-IsValid r n now req hs (inl sid) valid =
    with_found-IsValid r req.url http_precondition_failed hs
      (λ f. renew_service now sid f.info req f.service) valid
      (λ f. request-IsValid r n f.info f.service (renews now sid req) tt)

unsubscribe_named-IsValid :
    (r : Resolver) (n : NetIf) (now : ℕ) (req : Request) (hs : Handles) (who : Bytes ⊎ ℕ)
    → HandlesAreValid hs
    → HandlesAreValid (unsubscribe_named r now req hs who).0
unsubscribe_named-IsValid r n now req hs (inr code) valid = valid
unsubscribe_named-IsValid r n now req hs (inl sid) valid =
    with_found-IsValid r req.url http_precondition_failed hs
      (λ f. unsubscribe_service now sid f.service) valid
      (λ f. request-IsValid r n f.info f.service (unsubscribes now sid) tt)

-- A GENA request, of whatever method and with whatever headers, keeps every service of every
-- device valid: the count right, the SIDs distinct, the subscriptions within the maximum. This
-- is if no service has a subscription under the SID made for a new one.
pub gena_callback-IsValid :
    (notified : Request → Response) (r : Resolver) (n : NetIf) (now : ℕ) (uuid : Bytes) (m : Method)
    (req : Request) (hs : Handles)
    → HandlesAreValid hs
    → HandlesLack (codes "uuid:" ++ uuid) hs
    → HandlesAreValid (gena_callback notified r n now uuid m req hs).0
unfolding gena_callback gena_process_subscription_request gena_process_subscription_renewal_request
    gena_process_unsubscribe_request
gena_callback-IsValid notified r n now uuid subscribe_method req hs valid new =
    elim (Bool-cases (has_header (codes "nt") req)) [
      | inl nt ↦ simp (nt) (checked-IsValid r n now uuid req hs (subscribe_refusal req) valid new)
      | inr renewal ↦ simp (renewal) (renew_named-IsValid r n now req hs (named_sid req) valid)
    ]
gena_callback-IsValid notified r n now uuid unsubscribe_method req hs valid new =
    unsubscribe_named-IsValid r n now req hs (named_sid req) valid
gena_callback-IsValid notified r n now uuid notify_method req hs valid new = valid
gena_callback-IsValid notified r n now uuid other_method req hs valid new = valid
