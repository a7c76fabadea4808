-- ===== src/Macos/Tests.antt =====
-- The privileged side at concrete buffers and routes.
use galaxybridge.Prelude.{
  ℕ, ◌≡◌, ◌↔◌, inl, inr, refl, true, false, List, [], ◌∷◌, ◌++◌, none, some, Result, ok, arith, All,
  codes, text_eq, get_range,
}
use galaxybridge.Rndis.Wire.{from_le_bytes}
use galaxybridge.Macos.Bpf.{Layout}
use galaxybridge.Macos.Bpf
use galaxybridge.Macos.Bpf.Records.{Batch}
use galaxybridge.Macos.Bpf.Decode.{IsSupported, Batch-iff}
use galaxybridge.Macos.Route.{
  Snapshot, Command, is_vpn, starts_with, same_gateway, same, same_route, is_usable, dhcp, command,
  confirm, permits, usable_gateway, replaces, is_excluded, select,
}
use galaxybridge.Macos.Route
use galaxybridge.Macos.Route.Recovery.{
  Look, fresh, write_route, replace, confirmed, fall_back, examine, restore_loop, restore,
}
use galaxybridge.Macos.Route.Recovery.Guard.{IsAllowed, restore-guarded, restore-ends}

abbrev arp_frame : List ℕ
arp_frame = 2 ∷ 0 ∷ 0 ∷ 0 ∷ 0 ∷ 1 ∷ 2 ∷ 0 ∷ 0 ∷ 0 ∷ 0 ∷ 2 ∷ 8 ∷ 6 ∷ []

-- The header of Apple's `struct bpf_hdr`: a time stamp of 8 bytes, two lengths and the header length.
abbrev layout : Layout
layout = record { capture = 8; original = 12; header = 16; alignment = 4 }

abbrev capture : List ℕ
capture =
    (0 ∷ 0 ∷ 0 ∷ 0 ∷ 0 ∷ 0 ∷ 0 ∷ 0 ∷ 14 ∷ 0 ∷ 0 ∷ 0 ∷ 14 ∷ 0 ∷ 0 ∷ 0 ∷ 18 ∷ 0 ∷ []) ++ arp_frame

captured : Bpf.decode capture layout ≡ ok (arp_frame ∷ [])
unfolding Bpf.decode Bpf.decode_loop Bpf.take_record Bpf.skip_padding Bpf.field get_range
    from_le_bytes
captured = refl

Batch-iff_example :
    (Bpf.decode capture layout ≡ ok (arp_frame ∷ []))
    ↔ (IsSupported layout × Batch layout capture (arp_frame ∷ []))
Batch-iff_example = Batch-iff layout capture (arp_frame ∷ []) (omega arith)

-- The route of the wireless interface, 192.168.1.1.
abbrev wireless : Snapshot
wireless = record { interface = codes "en0"; gateway = some 0xc0a8_0101 }

-- No default route is left, and the former interface has its address again.
abbrev gone : Look
gone = record {
  current = ok none;
  present = ok false;
  active = true;
  address = some 0xc0a8_0117;
  router = some 0xc0a8_0101;
  scoped = ok none;
  again = ok none;
  present_again = ok false;
  ran = ok tt;
  after = ok (some wireless);
  late = false;
}

-- The route that was written is still the default.
abbrev standing : Look
standing = record gone { current = ok (some wireless) }

abbrev last_look : Look
last_look = record standing { late = true }

restored : restore (some wireless) (codes "feth4") (gone ∷ standing ∷ last_look ∷ []) ≡ (
  record {
    applied = some wireless;
    confirmations = 2;
    commands = record { changes = false; gateway = 0xc0a8_0101; interface = codes "en0" } ∷ [];
  },
  some (ok tt),
)
unfolding restore restore_loop examine fall_back confirmed replace write_route fresh dhcp is_usable
    same_route same same_gateway text_eq command confirm permits is_vpn starts_with usable_gateway
    replaces is_excluded select Route.is_some
restored = refl

restore-guarded_example :
    All
      (IsAllowed wireless (codes "feth4") (gone ∷ standing ∷ last_look ∷ []))
      (restore (some wireless) (codes "feth4") (gone ∷ standing ∷ last_look ∷ [])).0.commands
restore-guarded_example =
    restore-guarded wireless (codes "feth4") (gone ∷ standing ∷ last_look ∷ [])

restore-ends_example :
    (result : Result (Unit {0})) × ((restore
        (some wireless)
        (codes "feth4")
        (gone ∷ standing ∷ last_look ∷ [])).1
      ≡ some result)
restore-ends_example =
    restore-ends (some wireless) (codes "feth4") (gone ∷ standing ∷ last_look ∷ [])
      (last_look, inr (inr (inl refl)), refl)
