-- ===== src/Usb/Layout/Addresses.antt =====
-- What the loops over alternate settings and endpoints establish of endpoint addresses.
use Prim.Native.Nat.{bit_and}
use galaxybridge.Prelude.{
  ℕ, ◌≡◌, ◌≢◌, inl, inr, List, [], ◌∷◌, Option, none, some, arith, ok, ◌==◌, All, Result-cases,
  Bool-cases,
}
use galaxybridge.Usb.Layout.Alternates.{
  EndpointDescriptor, InterfaceDescriptor, insert, check_endpoints, check_alternates,
}
use galaxybridge.Usb.Layout.Endpoints.{
  check_notification, notification, fill, assign, data_endpoints,
}

-- A usable endpoint address: a number other than 0 and no reserved bit.
abbrev pub IsAddress : ℕ → Type 0
IsAddress a = (bit_and a 0x70 ≡ 0) × (bit_and a 0x0f ≢ 0)

abbrev pub IsIn : ℕ → Type 0
IsIn a = IsAddress a × (bit_and a 0x80 ≢ 0)

abbrev pub IsOut : ℕ → Type 0
IsOut a = IsAddress a × (bit_and a 0x80 ≡ 0)

abbrev pub Addressed : List EndpointDescriptor → Type 0
Addressed es = All (λ e. IsAddress (EndpointDescriptor.address e)) es

check_endpoints-Addressed :
    (es : List EndpointDescriptor) (seen found : List ℕ)
    → check_endpoints es seen ≡ ok found
    → Addressed es
unfolding check_endpoints
check_endpoints-Addressed [] seen found h = tt
check_endpoints-Addressed (e ∷ es) seen found h =
    (ground arith, check_endpoints-Addressed es (e.address ∷ seen) found (ground arith))

-- An accepted configuration has only usable endpoint addresses, in every alternate setting.
pub check_alternates-Addressed :
    (is : List InterfaceDescriptor) (seen : List (ℕ × ℕ)) (numbers found : List ℕ)
    → check_alternates is seen numbers ≡ ok found
    → All (λ i. Addressed (InterfaceDescriptor.endpoints i)) is
unfolding check_alternates
check_alternates-Addressed [] seen numbers found h = tt
check_alternates-Addressed (i ∷ is) seen numbers found h =
    elim (Result-cases (check_endpoints i.endpoints [])) [
      | inr (x, e) ↦ absurd (ground arith)
      | inl (addresses, e) ↦ (
        check_endpoints-Addressed i.endpoints [] addresses e,
        check_alternates-Addressed is ((i.number, i.alternate) ∷ seen) (insert i.number numbers)
            found (ground arith),
      )
    ]

-- The notification endpoint is the only endpoint of its interface, and an IN endpoint.
pub notification-IsIn :
    (i : InterfaceDescriptor) (es : List EndpointDescriptor) (a : ℕ)
    → i.endpoints ≡ es
    → notification i ≡ ok a
    → Addressed es
    → IsIn a
unfolding notification check_notification
notification-IsIn i [] a e h v = absurd (ground arith)
notification-IsIn i (x ∷ []) a e h v = ground arith
notification-IsIn i (x ∷ y ∷ es) a e h v = absurd (ground arith)

abbrev Slot : (ℕ → Type 0) → Option ℕ → Type 0
Slot P none = Unit
Slot P (some a) = P a

fill_lem : (o o' : Option ℕ) (a : ℕ) → fill o a ≡ ok o' → o' ≡ some a
unfolding fill
fill_lem none o' a e = ground arith
fill_lem (some b) o' a e = absurd (cc)

assign_end :
    (incoming outgoing : Option ℕ) (rx tx : ℕ)
    → assign [] incoming outgoing ≡ ok (rx, tx)
    → (incoming ≡ some rx) × (outgoing ≡ some tx)
unfolding assign
assign_end incoming outgoing rx tx h = ground arith

-- The two data endpoints are told apart by their direction.
assign-directions :
    (es : List EndpointDescriptor) (incoming outgoing : Option ℕ) (rx tx : ℕ)
    → assign es incoming outgoing ≡ ok (rx, tx)
    → Addressed es
    → Slot IsIn incoming
    → Slot IsOut outgoing
    → IsIn rx × IsOut tx
assign-directions [] incoming outgoing rx tx h v i o =
    let (a, b) = assign_end incoming outgoing rx tx h in (rw a at i, rw b at o)
assign-directions (e ∷ es) incoming outgoing rx tx h v i o =
    elim (Bool-cases (bit_and e.address 0x80 == 0)) [
      | inl low ↦ elim (Result-cases (fill outgoing e.address)) [
        | inr (x, f) ↦ absurd (unfold assign in ground arith)
        | inl (outgoing', f) ↦
            assign-directions es incoming outgoing' rx tx (unfold assign in ground arith) v.1 i
              (rw (fill_lem _ _ _ f) (v.0, ground arith))
      ]
      | inr high ↦ elim (Result-cases (fill incoming e.address)) [
        | inr (x, f) ↦ absurd (unfold assign in ground arith)
        | inl (incoming', f) ↦
            assign-directions es incoming' outgoing rx tx (unfold assign in ground arith) v.1
              (rw (fill_lem _ _ _ f) (v.0, ground arith)) o
      ]
    ]

pub data_endpoints-directions :
    (i : InterfaceDescriptor) (rx tx : ℕ)
    → data_endpoints i ≡ ok (rx, tx)
    → Addressed i.endpoints
    → IsIn rx × IsOut tx
unfolding data_endpoints
data_endpoints-directions i rx tx h v =
    assign-directions i.endpoints none none rx tx (ground arith) v tt tt
