-- ===== src/Usb/Layout/Sound.antt =====
-- What a layout that `Layout::parse` returns promises.
use galaxybridge.Prelude.{
  ℕ, ◌≤◌, ◌≡◌, ◌≢◌, refl, sym, ap, ◌∙◌, inl, inr, true, List, [], ◌∷◌, ◌++◌, Option, none, some,
  arith, ok, length, All, value_or, Result-cases, filter_by, ◌↔◌, String, Bool,
}
use mathlib.Core.Option.{get_or}
use galaxybridge.Usb.Layout.Chain.{Range, walk}
use galaxybridge.Usb.Layout.Walk.{Chain, walk-Chain}
use galaxybridge.Usb.Layout.Alternates.{InterfaceDescriptor, Configuration, check_alternates}
use galaxybridge.Usb.Layout.Endpoints
use galaxybridge.Usb.Layout.Endpoints.{data_endpoints}
use galaxybridge.Usb.Layout.Addresses.{
  IsIn, IsOut, Addressed, check_alternates-Addressed, notification-IsIn, data_endpoints-directions,
}
use galaxybridge.Usb.Unique.{IsUnique, filter_by-IsUnique}
use galaxybridge.Usb.Devices.Selection.{IsRndis, signature-IsRndis}
use galaxybridge.Usb.Layout.{
  configuration_limit, Interface, Layout, is_control, exactly_one, check_functional, find_union,
  data_number, check_association, is_candidate, select, parse,
}

-- An alternate setting of an RNDIS control interface.
abbrev pub IsControl : InterfaceDescriptor → Type 0
IsControl i = IsRndis i.class i.subclass i.protocol

-- An alternate setting with endpoints of a data interface of that number.
abbrev pub IsUsable : ℕ → InterfaceDescriptor → Type 0
IsUsable number i = (i.number ≡ number) × (i.class ≡ 0x0a) × (i.num_endpoints ≢ 0)

is_candidate-IsUsable :
    (number : ℕ) (i : InterfaceDescriptor) → (is_candidate number i ≡ true) ↔ IsUsable number i
is_candidate-IsUsable number i = (λ e. ground arith, λ h. ground arith)

exactly_one_lem :
    (xs : List InterfaceDescriptor) (what : String) (x : InterfaceDescriptor)
    → exactly_one xs what ≡ ok x
    → xs ≡ x ∷ []
unfolding exactly_one
exactly_one_lem [] what x e = absurd (cc)
exactly_one_lem (y ∷ []) what x e = cc
exactly_one_lem (y ∷ z ∷ xs) what x e = absurd (cc)

exactly_one-IsUnique :
    (p : InterfaceDescriptor → Bool) (P : InterfaceDescriptor → Type 0)
    → ((i : InterfaceDescriptor) → (p i ≡ true) ↔ P i)
    → (xs : List InterfaceDescriptor) (what : String) (x : InterfaceDescriptor)
    → exactly_one (filter_by p xs) what ≡ ok x
    → IsUnique P xs x
exactly_one-IsUnique p P decides xs what x e =
    (filter_by-IsUnique p P decides xs x).0 (exactly_one_lem (filter_by p xs) what x e)

All-only :
    (P : InterfaceDescriptor → Type 0) (before after : List InterfaceDescriptor)
    (x : InterfaceDescriptor)
    → All P (before ++ (x ∷ after))
    → P x
All-only P [] after x h = h.0
All-only P (y ∷ before) after x h = All-only P before after x h.1

-- A CDC Union descriptor never names the control interface itself.
abbrev Elsewhere : ℕ → Option ℕ → Type 0
Elsewhere number none = Unit
Elsewhere number (some slave) = slave ≢ number

check_functional-Elsewhere :
    (number : ℕ) (d : List ℕ) (found found' : Option ℕ)
    → check_functional number d found ≡ ok found'
    → Elsewhere number found
    → Elsewhere number found'
unfolding check_functional
check_functional-Elsewhere number d none none e h = tt
check_functional-Elsewhere number d none (some slave) e h = ground arith
check_functional-Elsewhere number d (some other) none e h = tt
check_functional-Elsewhere number d (some other) (some slave) e h = ground arith

find_union-Elsewhere :
    (number : ℕ) (ds : List (List ℕ)) (found found' : Option ℕ)
    → find_union number ds found ≡ ok found'
    → Elsewhere number found
    → Elsewhere number found'
unfolding find_union
find_union-Elsewhere number [] found found' e h = let e' : found ≡ found' = cc in rw (← e') h
find_union-Elsewhere number (d ∷ ds) found found' e h =
    elim (Result-cases (check_functional number d found)) [
      | inr (x, c) ↦ absurd (ground arith)
      | inl (next, c) ↦
          find_union-Elsewhere number ds next found' (ground arith)
            (check_functional-Elsewhere number d found next c h)
    ]

data_number-ne :
    (number : ℕ) (union : Option ℕ) (n : ℕ)
    → data_number number union ≡ some n
    → Elsewhere number union
    → n ≢ number
unfolding data_number
data_number-ne number none n e h = ground arith
data_number-ne number (some slave) n e h = ground arith

record Selected (associations : List Range) (interfaces : List InterfaceDescriptor) (l : Layout)
    (control candidate : InterfaceDescriptor) (union : Option ℕ) (number : ℕ) : Type 0 where
  control_found :
      exactly_one (filter_by is_control interfaces) "missing or ambiguous RNDIS control interface"
      ≡ ok control
  union_found : find_union control.number control.descriptors none ≡ ok union
  number_found : data_number control.number union ≡ some number
  association : check_association associations control.number number ≡ ok tt
  data_found :
      exactly_one
        (filter_by (is_candidate number) interfaces)
        "missing or ambiguous RNDIS data alternate setting"
      ≡ ok candidate
  notified : Endpoints.notification control ≡ ok l.notification
  transfers : data_endpoints candidate ≡ ok (l.incoming, l.outgoing)
  distinct : l.notification ≢ l.incoming
  own_control : l.control ≡ record { number = control.number; alternate = control.alternate }
  own_data :
      l.data_interface ≡ record { number = candidate.number; alternate = candidate.alternate }

abbrev nowhere : InterfaceDescriptor
nowhere = record {
  number = 0;
  alternate = 0;
  class = 0;
  subclass = 0;
  protocol = 0;
  num_endpoints = 0;
  endpoints = [];
  descriptors = [];
}

abbrev control_of : List InterfaceDescriptor → InterfaceDescriptor
control_of interfaces =
    value_or nowhere
      (exactly_one (filter_by is_control interfaces) "missing or ambiguous RNDIS control interface")

abbrev union_of : InterfaceDescriptor → Option ℕ
union_of control =
    value_or none (
      find_union (InterfaceDescriptor.number control) (InterfaceDescriptor.descriptors control)
        none)

abbrev number_of : InterfaceDescriptor → ℕ
number_of control = get_or (data_number (InterfaceDescriptor.number control) (union_of control)) 0

abbrev candidate_of : List InterfaceDescriptor → InterfaceDescriptor
candidate_of interfaces = value_or nowhere (
    exactly_one (filter_by (is_candidate (number_of (control_of interfaces))) interfaces)
      "missing or ambiguous RNDIS data alternate setting")

select-Selected :
    (associations : List Range) (interfaces : List InterfaceDescriptor) (l : Layout)
    → select associations interfaces ≡ ok l
    → Selected associations interfaces l
        (control_of interfaces)
        (candidate_of interfaces)
        (union_of (control_of interfaces))
        (number_of (control_of interfaces))
unfolding select
select-Selected associations interfaces l e = ground arith

-- The layout names the one RNDIS control interface and the one usable data setting of the
-- configuration, and three endpoints of theirs.
pub record IsFunction (interfaces : List InterfaceDescriptor) (l : Layout) : Type 0 where
  pub control : InterfaceDescriptor
  pub candidate : InterfaceDescriptor
  pub only_control : IsUnique IsControl interfaces control
  pub only_candidate : IsUnique (IsUsable l.data_interface.number) interfaces candidate
  pub control_named : l.control ≡ record { number = control.number; alternate = control.alternate }
  pub candidate_named :
      l.data_interface ≡ record { number = candidate.number; alternate = candidate.alternate }
  pub two_interfaces : l.data_interface.number ≢ l.control.number
  pub notification_in : IsIn l.notification
  pub incoming_in : IsIn l.incoming
  pub outgoing_out : IsOut l.outgoing
  pub separate : l.notification ≢ l.incoming

Selected-IsFunction :
    (associations : List Range) (interfaces : List InterfaceDescriptor) (l : Layout)
    (control candidate : InterfaceDescriptor) (union : Option ℕ) (number : ℕ)
    → All (λ i. Addressed (InterfaceDescriptor.endpoints i)) interfaces
    → Selected associations interfaces l control candidate union number
    → IsFunction interfaces l
Selected-IsFunction associations interfaces l control candidate union number v s =
    let (b, a, shape, is, u, w) =
      exactly_one-IsUnique is_control IsControl
        (λ i. signature-IsRndis i.class i.subclass i.protocol) interfaces _ control
        s.control_found in
    let (b', a', shape', is', u', w') =
      exactly_one-IsUnique (is_candidate number) (IsUsable number) (is_candidate-IsUsable number)
        interfaces _ candidate s.data_found in
    let own : number ≡ candidate.number = sym is'.0 in
    let named : number ≡ l.data_interface.number =
      own ∙ sym (ap (λ (i : Interface). i.number) s.own_data) in
    let addressed =
      λ (x : InterfaceDescriptor) (b a : List InterfaceDescriptor) (e : interfaces ≡ b ++ (x ∷ a)).
        All-only (λ i. Addressed (InterfaceDescriptor.endpoints i)) b a x (rw e at v) in
    let (rx, tx) =
      data_endpoints-directions candidate l.incoming l.outgoing s.transfers
        (addressed candidate b' a' shape') in
    record {
      control = control;
      candidate = candidate;
      only_control = (b, a, shape, is, u, w);
      only_candidate = rw (← named) (b', a', shape', is', u', w');
      control_named = s.own_control;
      candidate_named = s.own_data;
      two_interfaces =
          rw (← named, s.own_control)
            (data_number-ne control.number union number s.number_found (
              find_union-Elsewhere control.number control.descriptors none union s.union_found tt));
      notification_in =
          notification-IsIn control control.endpoints l.notification refl s.notified
            (addressed control b a shape);
      incoming_in = rx;
      outgoing_out = tx;
      separate = s.distinct;
    }

record Parsed (read_configuration : List ℕ → Option Configuration) (bytes : List ℕ) (l : Layout)
    (config : Configuration) (associations : List Range) (numbers : List ℕ) : Type 0 where
  bounded : length bytes ≤ configuration_limit
  configured : read_configuration bytes ≡ some config
  whole : length config.bytes ≡ length bytes
  walked : walk (length bytes) (length bytes) bytes [] ≡ ok associations
  checked : check_alternates config.alternates [] [] ≡ ok numbers
  counted : length numbers ≡ config.num_interfaces
  selected : select associations config.alternates ≡ ok l

abbrev no_configuration : Configuration
no_configuration = record { bytes = []; num_interfaces = 0; alternates = [] }

parse-Parsed :
    (read_configuration : List ℕ → Option Configuration) (bytes : List ℕ) (l : Layout)
    → parse read_configuration bytes ≡ ok l
    → let config = get_or (read_configuration bytes) no_configuration in
      Parsed read_configuration bytes l config
        (value_or [] (walk (length bytes) (length bytes) bytes []))
        (value_or [] (check_alternates config.alternates [] []))
unfolding parse
parse-Parsed read_configuration bytes l e = ground arith

-- For any bytes, and whatever the descriptor library makes of them: when `Layout::parse` returns a
-- layout, the bytes are at most 65535 and a chain of whole descriptors, the library read a
-- configuration of exactly that many bytes, and of its alternate settings exactly one has the
-- class, subclass and protocol of an RNDIS control interface, and exactly one belongs to a data
-- interface of the number that the layout names and has endpoints (others of that interface,
-- without endpoints, may stand beside it); this is not the number of the control interface; the
-- layout gives the numbers and alternates of the two settings, the notification and incoming
-- addresses have the IN direction and differ, and the outgoing address has the OUT direction.
pub parse_sound :
    (read_configuration : List ℕ → Option Configuration) (bytes : List ℕ) (l : Layout)
    → parse read_configuration bytes ≡ ok l
    → (length bytes ≤ configuration_limit)
      × ((ds : List (List ℕ)) × Chain bytes ds)
      × ((config : Configuration) × (read_configuration bytes ≡ some config)
          × (length config.bytes ≡ length bytes)
          × IsFunction config.alternates l)
parse_sound read_configuration bytes l e =
    let p = parse-Parsed read_configuration bytes l e in
    let addressed = check_alternates-Addressed _ [] [] _ p.checked in
    let function = Selected-IsFunction _ _ l _ _ _ _ addressed (select-Selected _ _ l p.selected) in
    (p.bounded, (walk-Chain _ _ bytes [] _ p.walked tt).0, (_, p.configured, p.whole, function))
