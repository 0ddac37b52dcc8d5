-- ===== src/ServiceTable/Fill.antt =====
-- The table that `initServiceTable` makes of a description.
use npupnp.Common.{
  ◌≡◌, refl, sym, ◌∙◌, not, List, [], ◌∷◌, ◌++◌, append_assoc, append-nil, keep, null, map,
  Bool-cases, inl, inr,
}
use npupnp.ServiceTable.{
  ServiceInfo, ServiceDesc, DeviceDesc, new_service, fill_services, fill_service_list, fill_devices,
  init_service_table,
}

-- The services of a device that have a control URL.
abbrev pub device_services : DeviceDesc → List ServiceInfo
device_services dev = map (new_service dev.udn) (keep (λ d. not (null d.control_url)) dev.services)

abbrev pub all_services : List DeviceDesc → List ServiceInfo
all_services [] = []
all_services (dev ∷ devs) = device_services dev ++ all_services devs

fill_services_lem :
    (dev : DeviceDesc) (ds : List ServiceDesc) (table : List ServiceInfo)
    → fill_services dev.udn ds table
      ≡ table ++ map (new_service dev.udn) (keep (λ d. not (null d.control_url)) ds)
unfolding fill_services
fill_services_lem dev [] table = sym (append-nil table)
fill_services_lem dev (d ∷ ds) table = elim (Bool-cases (null d.control_url)) [
  | inl bad ↦ simp (bad) (fill_services_lem dev ds table)
  | inr good ↦ simp (good) (
      fill_services_lem dev ds (table ++ new_service dev.udn d ∷ [])
      ∙ append_assoc table (new_service dev.udn d ∷ []) _)
]

fill_devices_lem :
    (devs : List DeviceDesc) (table : List ServiceInfo)
    → fill_devices devs table ≡ table ++ all_services devs
unfolding fill_devices fill_service_list
fill_devices_lem [] table = sym (append-nil table)
fill_devices_lem (dev ∷ devs) table =
    fill_devices_lem devs (fill_service_list dev table)
    ∙ rw (fill_services_lem dev dev.services table)
        (append_assoc table (device_services dev) (all_services devs))

-- The table has the services of the root device and then those of its embedded devices, in their
-- order, less those with no control URL; each is active, with no subscription.
pub init_service_table_lem :
    (dev : DeviceDesc) (embedded : List DeviceDesc)
    → init_service_table dev embedded ≡ all_services (dev ∷ embedded)
unfolding init_service_table fill_service_list
init_service_table_lem dev embedded =
    fill_devices_lem embedded (fill_service_list dev [])
    ∙ rw (fill_services_lem dev dev.services []) refl
