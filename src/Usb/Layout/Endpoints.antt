-- ===== src/Usb/Layout/Endpoints.antt =====
-- src/usb/layout.rs, `Endpoints`: the notification endpoint and the two bulk endpoints.
use Prim.Native.Nat.{bit_and}
use galaxybridge.Prelude.{
  ℕ, Bool, true, false, ◌||◌, not, List, [], ◌∷◌, Option, none, some, Result, ok, err, message,
  ◌>>=◌, ◌>>◌, refuse, ok_or, byte_at, length, ◌==◌, within, if◌then◌else◌,
}
use galaxybridge.Usb.Layout.Alternates.{
  TransferType, bulk, interrupt, EndpointDescriptor, InterfaceDescriptor,
}

abbrev pub is_interrupt : TransferType → Bool
is_interrupt interrupt = true
is_interrupt _ = false

abbrev pub is_bulk : TransferType → Bool
is_bulk bulk = true
is_bulk _ = false

unfoldable pub check_notification : EndpointDescriptor → Result ℕ
check_notification e = do
  refuse
      (not (is_interrupt e.transfer_type)
        || bit_and e.address 0x80 == 0
        || not (within 8 1024 e.max_packet_size))
      (message "invalid RNDIS notification endpoint")
  high ← byte_at e.bytes 5
  refuse (not (bit_and high 0xe0 == 0)) (message "invalid RNDIS notification endpoint")
  interval ← byte_at e.bytes 6
  refuse (interval == 0) (message "invalid RNDIS notification endpoint")
  ok e.address

unfoldable pub notification : InterfaceDescriptor → Result ℕ
notification i = elim i.endpoints [
  | e ∷ [] ↦ check_notification e
  | _ ↦ err (message "ambiguous RNDIS notification endpoint")
]

abbrev pub is_bulk_size : ℕ → Bool
is_bulk_size n = n == 8 || n == 16 || n == 32 || n == 64 || n == 512 || n == 1024

unfoldable pub check_bulk : EndpointDescriptor → Result (Unit {0})
check_bulk e = do
  refuse (not (is_bulk e.transfer_type) || not (is_bulk_size e.max_packet_size))
      (message "invalid RNDIS bulk endpoint")
  high ← byte_at e.bytes 5
  refuse (not (bit_and high 0xf8 == 0)) (message "invalid RNDIS bulk endpoint")

-- `slot.replace(address)`, where a filled slot is an error.
unfoldable pub fill : Option ℕ → ℕ → Result (Option ℕ)
fill none address = ok (some address)
fill (some other) address = err (message "duplicate RNDIS data endpoint direction")

unfoldable pub assign : List EndpointDescriptor → Option ℕ → Option ℕ → Result (ℕ × ℕ)
assign [] incoming outgoing = do
  rx ← ok_or incoming (message "missing RNDIS bulk IN")
  tx ← ok_or outgoing (message "missing RNDIS bulk OUT")
  ok (rx, tx)
assign (e ∷ es) incoming outgoing =
    let into = fill incoming e.address >>= λ incoming'. assign es incoming' outgoing in
    let from = fill outgoing e.address >>= λ outgoing'. assign es incoming outgoing' in
    check_bulk e >>= λ _. if bit_and e.address 0x80 == 0 then from else into

unfoldable pub data_endpoints : InterfaceDescriptor → Result (ℕ × ℕ)
data_endpoints i = do
  refuse (not (length i.endpoints == 2)) (message "RNDIS needs exactly two data endpoints")
  assign i.endpoints none none
