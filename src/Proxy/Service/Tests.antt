-- ===== src/Proxy/Service/Tests.antt =====
-- A phone's read of FROMRADIO through the service of src/ble_gatt.c.
use meshtastic_ble_proxy.Base.{ℕ, refl, Bool, true, Option, some, List, [], ◌∷◌, Bytes, take, drop}
use meshtastic_ble_proxy.Nanopb.Sample.{sample_nanopb}
use meshtastic_ble_proxy.Proxy.Sample.{starting}
use meshtastic_ble_proxy.Proxy.Service.{
  Entry, primary_service, characteristic, ccc, Attribute, declaration, value, configuration,
  IsExpansion, expanded, meshtastic_svc, Request, read_at, permits, permission, IsGuard, request,
}
use meshtastic_ble_proxy.Proxy.Service.Requests.{Reaches, request-Reaches}

abbrev attr_read : Bytes → ℕ → ℕ → Option Bytes
attr_read whole len offset = some (take len (drop offset whole))

-- The macros, and a stack that asks for the permissions and nothing else.
abbrev macros : Entry → List Attribute
macros (primary_service u) = declaration ∷ []
macros (characteristic u props perms r w) = declaration ∷ value u props perms r w ∷ []
macros (ccc perms) = configuration perms ∷ []

macros-IsExpansion : IsExpansion macros
macros-IsExpansion = record {
  service = λ u. refl;
  both = λ u props perms r w. refl;
  client = λ perms. refl;
}

abbrev lets : Attribute → Request → Bool
lets (value u props perms r w) q = permits (permission q) perms
lets declaration q = true
lets (configuration perms) q = permits (permission q) perms

lets-IsGuard : IsGuard lets
lets-IsGuard u props perms r w q h = h

request-Reaches_example : Reaches sample_nanopb attr_read lets starting 9 5 (read_at 20 0) (
    request sample_nanopb attr_read lets
      (expanded macros meshtastic_svc)
      starting
      9
      5
      (read_at 20 0))
request-Reaches_example =
    request-Reaches sample_nanopb attr_read lets lets-IsGuard starting 9 macros macros-IsExpansion 5
      (read_at 20 0)
