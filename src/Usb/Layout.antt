-- ===== src/Usb/Layout.antt =====
-- src/usb/layout.rs: the one RNDIS function of a USB configuration.
pub mod Chain
pub mod Alternates
pub mod Endpoints
pub mod Walk
pub mod Sound
pub mod Addresses
pub mod Total
use galaxybridge.Prelude.{
  ℕ, zero, suc, ◌+◌, ◌≡◌, Bool, true, false, ◌&&◌, ◌||◌, not, List, [], ◌∷◌, Option, none, some,
  String, Result, ok, err, message, ◌>>=◌, ◌>>◌, refuse, ok_or, any, byte_at, length, filter_by,
  find_by, ltb, leb, ◌==◌, if◌then◌else◌,
}
use galaxybridge.Usb.Devices.{signature}
use Chain.{Range, walk}
use Alternates.{EndpointDescriptor, InterfaceDescriptor, Configuration, check_alternates}
use Endpoints.{data_endpoints}

abbrev pub configuration_limit : ℕ
configuration_limit = 65535

pub record Interface : Type 0 where
  pub number : ℕ
  pub alternate : ℕ

pub record Layout : Type 0 where
  pub control : Interface
  pub data_interface : Interface
  pub notification : ℕ
  pub incoming : ℕ
  pub outgoing : ℕ

abbrev pub is_control : InterfaceDescriptor → Bool
is_control i = signature i.class i.subclass i.protocol

-- `len() != 1` refuses, and then the one element.
unfoldable pub exactly_one : List InterfaceDescriptor → String → Result InterfaceDescriptor
exactly_one (i ∷ []) what = ok i
exactly_one _ what = err (message what)

-- `union.replace(..).is_some()`, an error when there was one before.
unfoldable pub one_union : ℕ → Option ℕ → Result (Option ℕ)
one_union slave none = ok (some slave)
one_union slave (some other) = err (message "malformed or ambiguous CDC Union descriptor")

-- A CDC Union descriptor of the control interface `number` names the data interface.
unfoldable pub read_union : ℕ → List ℕ → Option ℕ → Result (Option ℕ)
unfolding one_union
read_union number descriptor found = do
  refuse (not (length descriptor == 5)) (message "malformed or ambiguous CDC Union descriptor")
  master ← byte_at descriptor 3
  slave ← byte_at descriptor 4
  refuse (not (master == number) || slave == number)
      (message "malformed or ambiguous CDC Union descriptor")
  one_union slave found

unfoldable pub check_functional : ℕ → List ℕ → Option ℕ → Result (Option ℕ)
unfolding read_union
check_functional number descriptor found = do
  kind ← byte_at descriptor 1
  if kind == 0x24
      then (do
        subtype ← byte_at descriptor 2
        if subtype == 6 then read_union number descriptor found else ok found)
      else ok found

unfoldable pub find_union : ℕ → List (List ℕ) → Option ℕ → Result (Option ℕ)
find_union number [] found = ok found
find_union number (d ∷ ds) found = do
  found' ← check_functional number d found
  find_union number ds found'

-- `union.or_else(|| number.checked_add(1))`, on `u8`.
unfoldable pub data_number : ℕ → Option ℕ → Option ℕ
data_number number (some slave) = some slave
data_number number none = if ltb (number + 1) 256 then some (number + 1) else none

abbrev pub in_range : ℕ → Range → Bool
in_range number r = leb r.first number && ltb number r.end

-- The association of the control interface, if there is one, starts with it and holds the data
-- interface; if there is none, no other function holds the data interface.
unfoldable pub check_association : List Range → ℕ → ℕ → Result (Unit {0})
check_association associations control data_interface =
    elim (find_by (in_range control) associations) [
      | some r ↦
          refuse (not (Range.first r == control) || not (in_range data_interface r))
            (message "RNDIS data interface is outside its USB function")
      | none ↦
          refuse (any (in_range data_interface) associations)
            (message "RNDIS data interface belongs to another USB function")
    ]

abbrev pub is_candidate : ℕ → InterfaceDescriptor → Bool
is_candidate number i = i.number == number && i.class == 0x0a && not (i.num_endpoints == 0)

-- The part of `Layout::parse` behind the two loops.
unfoldable pub select : List Range → List InterfaceDescriptor → Result Layout
select associations interfaces = do
  control ←
      exactly_one (filter_by is_control interfaces) "missing or ambiguous RNDIS control interface"
  union ←
      find_union (InterfaceDescriptor.number control) (InterfaceDescriptor.descriptors control) none
  number ←
      ok_or (data_number (InterfaceDescriptor.number control) union)
        (message "missing RNDIS data interface")
  check_association associations (InterfaceDescriptor.number control) number
  candidate ←
      exactly_one (filter_by (is_candidate number) interfaces)
        "missing or ambiguous RNDIS data alternate setting"
  notification ← Endpoints.notification control
  (incoming, outgoing) ← data_endpoints candidate
  refuse (notification == incoming) (message "RNDIS interfaces share an endpoint address")
  ok (record {
    control = record { number = control.number; alternate = control.alternate };
    data_interface = record { number = candidate.number; alternate = candidate.alternate };
    notification = notification;
    incoming = incoming;
    outgoing = outgoing;
  })

-- `read_configuration` is the descriptor library's `ConfigurationDescriptor::new`.
unfoldable pub parse : (List ℕ → Option Configuration) → List ℕ → Result Layout
parse read_configuration bytes = do
  refuse (ltb configuration_limit (length bytes)) (message "USB configuration exceeds 65535 bytes")
  config ← ok_or (read_configuration bytes) (message "invalid USB configuration")
  refuse (not (length (Configuration.bytes config) == length bytes))
      (message "data after the declared USB configuration")
  associations ← walk (length bytes) (length bytes) bytes []
  numbers ← check_alternates (Configuration.alternates config) [] []
  refuse (not (length numbers == config.num_interfaces))
      (message "USB interface count disagrees with descriptors")
  select associations config.alternates
