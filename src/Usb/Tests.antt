-- ===== src/Usb/Tests.antt =====
-- The device side at a concrete configuration and concrete exchanges.
use galaxybridge.Prelude.{
  ℕ, ◌≡◌, ◌↔◌, ◌≤◌, refl, List, [], ◌∷◌, ◌++◌, Option, none, some, ok, arith, length, byte_at,
}
use galaxybridge.Rndis.Wire.{words, to_le_bytes, from_le_bytes, u32_at}
use galaxybridge.Rndis.Control.Message
use galaxybridge.Rndis.Control.Request.{keepalive, response, minimum}
use galaxybridge.Rndis.Control.Notification.{response_available}
use galaxybridge.Usb.Devices.{Filter, DeviceInfo, select, signature}
use galaxybridge.Usb.Devices.Selection.{IsMatch, select_iff}
use galaxybridge.Usb.Unique.{IsUnique}
use galaxybridge.Usb.Layout.{configuration_limit, Layout}
use galaxybridge.Usb.Layout
use galaxybridge.Usb.Layout.Chain.{walk, take_descriptor, associate, least_length}
use galaxybridge.Usb.Layout.Alternates.{
  InterfaceDescriptor, Configuration, bulk, interrupt, check_alternates, check_endpoints, insert,
}
use galaxybridge.Usb.Layout.Endpoints.{
  notification, check_notification, data_endpoints, assign, fill, check_bulk,
}
use galaxybridge.Usb.Layout.Walk.{Chain, Disjoint, walk-Chain}
use galaxybridge.Usb.Layout.Total.{Answers, walk-Answers}
use galaxybridge.Usb.Layout.Sound.{IsFunction, parse_sound}
use galaxybridge.Usb.Session.{idle, notified, Script, Session, exchange, handshake, next_id}
use galaxybridge.Usb.Session.Exchange.{Succeeds, exchange_iff}
use galaxybridge.Usb.Session.Handshake.{IsEstablished, handshake_iff, keepalive-stale}

abbrev union_bytes : List ℕ
union_bytes = 5 ∷ 0x24 ∷ 6 ∷ 0 ∷ 1 ∷ []

abbrev notification_bytes : List ℕ
notification_bytes = 7 ∷ 5 ∷ 0x81 ∷ 3 ∷ 8 ∷ 0 ∷ 9 ∷ []

abbrev in_bytes : List ℕ
in_bytes = 7 ∷ 5 ∷ 0x82 ∷ 2 ∷ 0 ∷ 2 ∷ 0 ∷ []

abbrev out_bytes : List ℕ
out_bytes = 7 ∷ 5 ∷ 0x03 ∷ 2 ∷ 0 ∷ 2 ∷ 0 ∷ []

-- A phone that tethers: an association of two interfaces, the control interface with its union, and
-- the data interface.
abbrev configuration_bytes : List ℕ
configuration_bytes =
    (9 ∷ 2 ∷ 61 ∷ 0 ∷ 2 ∷ 1 ∷ 0 ∷ 0x80 ∷ 250 ∷ [])
    ++ ((8 ∷ 11 ∷ 0 ∷ 2 ∷ 0xe0 ∷ 1 ∷ 3 ∷ 0 ∷ [])
        ++ ((9 ∷ 4 ∷ 0 ∷ 0 ∷ 1 ∷ 0xe0 ∷ 1 ∷ 3 ∷ 0 ∷ [])
            ++ (union_bytes
                ++ (notification_bytes
                    ++ ((9 ∷ 4 ∷ 1 ∷ 0 ∷ 2 ∷ 0x0a ∷ 0 ∷ 0 ∷ 0 ∷ []) ++ (in_bytes ++ out_bytes))))))

abbrev control_interface : InterfaceDescriptor
control_interface = record {
  number = 0;
  alternate = 0;
  class = 0xe0;
  subclass = 1;
  protocol = 3;
  num_endpoints = 1;
  endpoints =
      record {
        address = 0x81;
        transfer_type = interrupt;
        max_packet_size = 8;
        bytes = notification_bytes;
      }
      ∷ [];
  descriptors = union_bytes ∷ notification_bytes ∷ [];
}

abbrev data_interface : InterfaceDescriptor
data_interface = record {
  number = 1;
  alternate = 0;
  class = 0x0a;
  subclass = 0;
  protocol = 0;
  num_endpoints = 2;
  endpoints =
      record { address = 0x82; transfer_type = bulk; max_packet_size = 512; bytes = in_bytes }
      ∷ record { address = 0x03; transfer_type = bulk; max_packet_size = 512; bytes = out_bytes }
      ∷ [];
  descriptors = in_bytes ∷ out_bytes ∷ [];
}

-- A reader that knows this one configuration.
abbrev read_phone : List ℕ → Option Configuration
read_phone bytes = some (record {
  bytes = bytes;
  num_interfaces = 2;
  alternates = control_interface ∷ data_interface ∷ [];
})

abbrev phone_layout : Layout
phone_layout = record {
  control = record { number = 0; alternate = 0 };
  data_interface = record { number = 1; alternate = 0 };
  notification = 0x81;
  incoming = 0x82;
  outgoing = 0x03;
}

phone_accepted : Layout.parse read_phone configuration_bytes ≡ ok phone_layout
unfolding Layout.parse walk take_descriptor associate least_length check_alternates check_endpoints
    insert Layout.select signature Layout.exactly_one Layout.find_union Layout.check_functional
    Layout.read_union Layout.one_union Layout.data_number Layout.check_association notification
    check_notification data_endpoints assign fill check_bulk byte_at
phone_accepted = refl

parse_sound_example :
    (length configuration_bytes ≤ configuration_limit)
    × ((ds : List (List ℕ)) × Chain configuration_bytes ds)
    × ((config : Configuration) × (read_phone configuration_bytes ≡ some config)
        × (length config.bytes ≡ length configuration_bytes)
        × IsFunction config.alternates phone_layout)
parse_sound_example = parse_sound read_phone configuration_bytes phone_layout phone_accepted

walked : walk 61 61 configuration_bytes [] ≡ ok (record { first = 0; end = 2 } ∷ [])
unfolding walk take_descriptor associate least_length byte_at
walked = refl

walk-Chain_example :
    ((ds : List (List ℕ)) × Chain configuration_bytes ds)
    × Disjoint (record { first = 0; end = 2 } ∷ [])
walk-Chain_example =
    walk-Chain 61 61 configuration_bytes [] (record { first = 0; end = 2 } ∷ []) walked tt

walk-Answers_example : Answers (walk 61 61 configuration_bytes [])
walk-Answers_example = walk-Answers 61 61 configuration_bytes [] (omega arith)

-- One device of two has the vendor that the filter asks for.
abbrev vendor_filter : Filter
vendor_filter = record { vendor = some 0x04e8; product = none; serial = none }

abbrev phone_info : DeviceInfo
phone_info = record {
  identity = record { vendor = 0x04e8; product = 0x6863; serial = some (49 ∷ []) };
  interfaces = record { class = 0xe0; subclass = 1; protocol = 3 } ∷ [];
}

abbrev other_info : DeviceInfo
other_info = record {
  identity = record { vendor = 0x18d1; product = 0x4ee3; serial = none };
  interfaces = record { class = 0xe0; subclass = 1; protocol = 3 } ∷ [];
}

select_iff_example :
    (select (ok (other_info ∷ phone_info ∷ [])) vendor_filter ≡ ok phone_info)
    ↔ IsUnique (IsMatch vendor_filter) (other_info ∷ phone_info ∷ []) phone_info
select_iff_example = select_iff vendor_filter (other_info ∷ phone_info ∷ []) phone_info

-- The device is slow to answer, reports a connected medium, and completes the keepalive 4.
abbrev completion : List ℕ
completion = words (0x8000_0008 ∷ 16 ∷ 4 ∷ 0 ∷ [])

abbrev slow : Script
slow = record {
  sent = ok tt;
  events =
      idle
      ∷ notified response_available (ok (0 ∷ []))
      ∷ notified response_available (ok (words (7 ∷ 20 ∷ 0x4001_000b ∷ 0 ∷ 0 ∷ [])))
      ∷ notified response_available (ok completion)
      ∷ idle
      ∷ [];
}

exchange_iff_example :
    (exchange (keepalive 4) slow ≡ ok completion)
    ↔ ((slow.sent ≡ ok tt) × Succeeds (keepalive 4) 0 slow.events completion)
exchange_iff_example = exchange_iff (keepalive 4) slow completion

completes_four : response (keepalive 4) completion ≡ ok completion
unfolding response keepalive minimum Message.parse u32_at from_le_bytes words to_le_bytes
completes_four = refl

keepalive-stale_example :
    ¬ ((other : List ℕ) × (response (keepalive (next_id 4)) completion ≡ ok other))
keepalive-stale_example = keepalive-stale 4 completion completion (omega arith) completes_four

-- A phone that answers each request of the handshake at once.
abbrev at_once : List ℕ → Script
at_once bytes = record { sent = ok tt; events = notified response_available (ok bytes) ∷ [] }

abbrev offering : Script
offering = at_once (words (0x8000_0002 ∷ 52 ∷ 1 ∷ 0 ∷ 1 ∷ 0 ∷ 1 ∷ 0 ∷ 8 ∷ 2000 ∷ 2 ∷ 0 ∷ 0 ∷ []))

abbrev telling : Script
telling = at_once (words (0x8000_0004 ∷ 30 ∷ 2 ∷ 0 ∷ 6 ∷ 16 ∷ []) ++ (2 ∷ 0 ∷ 0 ∷ 0 ∷ 0 ∷ 1 ∷ []))

abbrev filtering : Script
filtering = at_once (words (0x8000_0005 ∷ 16 ∷ 3 ∷ 0 ∷ []))

abbrev session : Session
session = record { id = 3; mac = 2 ∷ 0 ∷ 0 ∷ 0 ∷ 0 ∷ 1 ∷ []; max_transfer = 2000 }

handshake_iff_example :
    (handshake offering telling filtering ≡ ok session)
    ↔ IsEstablished offering telling filtering session
handshake_iff_example = handshake_iff offering telling filtering session (ground arith)
