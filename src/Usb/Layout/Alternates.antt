-- ===== src/Usb/Layout/Alternates.antt =====
-- src/usb/layout.rs, the second loop of `Layout::parse`: alternate settings and endpoint addresses.
-- What the descriptor library reports of a configuration is data here; how it reads the bytes is an
-- argument of `Layout.parse`.
use Prim.Native.Nat.{bit_and}
use galaxybridge.Prelude.{
  ℕ, Bool, ◌&&◌, ◌||◌, not, List, [], ◌∷◌, Result, ok, message, ◌>>=◌, ◌>>◌, refuse, any, length,
  ◌==◌, if◌then◌else◌,
}

pub data TransferType : Type 0 where
  control isochronous bulk interrupt : TransferType

pub record EndpointDescriptor : Type 0 where
  pub address : ℕ
  pub transfer_type : TransferType
  pub max_packet_size : ℕ
  pub bytes : List ℕ

pub record InterfaceDescriptor : Type 0 where
  pub number : ℕ
  pub alternate : ℕ
  pub class : ℕ
  pub subclass : ℕ
  pub protocol : ℕ
  pub num_endpoints : ℕ
  pub endpoints : List EndpointDescriptor
  pub descriptors : List (List ℕ)

pub record Configuration : Type 0 where
  pub bytes : List ℕ
  pub num_interfaces : ℕ
  pub alternates : List InterfaceDescriptor

-- A set is the list of its members, each once.
abbrev pub member : ℕ → List ℕ → Bool
member x xs = any (λ y. y == x) xs

abbrev pub member_pair : ℕ × ℕ → List (ℕ × ℕ) → Bool
member_pair x xs = any (λ y. y.0 == x.0 && y.1 == x.1) xs

-- `numbers.insert(..)`, whose answer is not read.
unfoldable pub insert : ℕ → List ℕ → List ℕ
insert x xs = if member x xs then xs else x ∷ xs

unfoldable pub check_endpoints : List EndpointDescriptor → List ℕ → Result (List ℕ)
check_endpoints [] addresses = ok addresses
check_endpoints (e ∷ es) addresses = do
  refuse
      (not (bit_and e.address 0x70 == 0)
        || bit_and e.address 0x0f == 0
        || member e.address addresses)
      (message "invalid or duplicate USB endpoint address")
  check_endpoints es (e.address ∷ addresses)

unfoldable pub check_alternates : List InterfaceDescriptor → List (ℕ × ℕ) → List ℕ → Result (List ℕ)
check_alternates [] seen numbers = ok numbers
check_alternates (i ∷ is) seen numbers = do
  refuse (member_pair (i.number, i.alternate) seen)
      (message "duplicate USB interface alternate setting")
  addresses ← check_endpoints i.endpoints []
  refuse (not (length addresses == i.num_endpoints))
      (message "USB endpoint count disagrees with descriptors")
  check_alternates is ((i.number, i.alternate) ∷ seen) (insert i.number numbers)
