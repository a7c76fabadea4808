-- ===== src/Macos/PolicyTests.antt =====
-- The texts that the privileged side reads, at concrete ones.
use Prim.Native.String.{String}
use galaxybridge.Prelude.{
  Result, none, if◌then◌else◌, ℕ, ◌≡◌, ◌↔◌, refl, true, List, [], ◌∷◌, ◌++◌, some, ok, codes, lines,
  trim, trim_start, trim_end, keep, split_inclusive, push_front, end_line, strip_suffix,
  strip_prefix, split_once, is_whitespace, text_len, is_empty, text_eq, parse_unsigned,
  parse_digits, digits_value, to_decimal, to_digits, from_utf8, decode_utf8, take_byte, emit,
  parse_ipv4, join_pieces, join_octets, parse_octet, split,
}
use galaxybridge.Macos.Command.{Output, exited}
use galaxybridge.Macos.Command
use galaxybridge.Macos.Route
use galaxybridge.Macos.Route.{Snapshot}
use galaxybridge.Macos.Route.Table.{has_vpn, Tunnel, has_vpn_iff}
use galaxybridge.Macos.Route.Reply.{reply}
use galaxybridge.Macos.Route.Reply
use galaxybridge.Macos.Route.Reply.Meaning.{Means, reply-Means}
use galaxybridge.Macos.Identity.{
  Account, Passwd, Group, Directory, load, account_name, home_directory,
}
use galaxybridge.Macos.Identity
use galaxybridge.Macos.Identity.Trust.{IsTrusted, load-IsTrusted}
use galaxybridge.Usb.Devices.{Filter}
use galaxybridge.Cli.{connect}
use galaxybridge.Macos.Context
use galaxybridge.Macos.Context.Enter
use galaxybridge.Macos.Context.Enter.{Process, Entry, inside, enter, Entered, enter-Entered}
use galaxybridge.Macos.Bundle
use galaxybridge.Macos.Bundle.{System}
use galaxybridge.Macos.Bundle.Trusted.{IsTrustedBundle, check-IsTrustedBundle}
use galaxybridge.Macos.Entitlements.{check}
use galaxybridge.Macos.Entitlements
use galaxybridge.Macos.Entitlements.Tags.{IsPolicy}
use galaxybridge.Macos.Entitlements.Policy.{check-IsPolicy}

abbrev newline : List ℕ
newline = 10 ∷ []

abbrev table : List ℕ
table = codes "Destination Gateway Netif" ++ newline ++ codes "default 10.0.0.1 utun3" ++ newline

has_vpn_iff_example : (has_vpn table ≡ ok true) ↔ Tunnel (lines table)
has_vpn_iff_example = has_vpn_iff table

abbrev printed : Output
printed = record {
  status = exited 0;
  stdout = codes "  gateway: 192.168.1.1" ++ newline ++ codes "  interface: en0" ++ newline;
  stderr = [];
}

abbrev wireless : Snapshot
wireless = record { interface = codes "en0"; gateway = some 0xc0a8_0101 }

replies : reply printed ≡ ok (some wireless)
unfolding reply Reply.classify Reply.parse Reply.from_fields Reply.with_interface Reply.with_gateway
    Reply.is_interface Reply.field Reply.find_key Command.success from_utf8 decode_utf8 take_byte
    emit parse_ipv4 join_pieces join_octets parse_octet parse_digits digits_value split text_len
    trim trim_start trim_end keep lines split_inclusive push_front end_line strip_suffix
    strip_prefix is_whitespace is_empty text_eq
replies = refl

reply-Means_example : Means printed (some wireless)
reply-Means_example = reply-Means printed (some wireless) replies

abbrev user_guid : List ℕ
user_guid = codes "01234567-89AB-CDEF-0123-456789ABCDEF"

abbrev group_guid : List ℕ
group_guid = codes "11234567-89AB-CDEF-0123-456789ABCDEF"

abbrev account : Account
account = record { uid = 60001; gid = 60001; user_guid = user_guid; group_guid = group_guid }

abbrev line : String → List ℕ → List ℕ
line key value = codes key ++ value ++ newline

abbrev receipt : List ℕ
receipt =
    line "version=" (codes "1")
    ++ line "uid=" (codes "60001")
    ++ line "gid=" (codes "60001")
    ++ line "user_guid=" user_guid
    ++ line "group_guid=" group_guid

abbrev user_text : List ℕ
user_text =
    line "UniqueID: " (codes "60001")
    ++ line "PrimaryGroupID: " (codes "60001")
    ++ line "GeneratedUID: " user_guid
    ++ line "AuthenticationAuthority: " (codes ";DisabledUser;")
    ++ line "UserShell: " (codes "/usr/bin/false")
    ++ line "NFSHomeDirectory: " home_directory
    ++ line "dsAttrTypeNative:IsHidden: " (codes "1")
    ++ line "Password: " (codes "*")

abbrev group_text : List ℕ
group_text =
    line "PrimaryGroupID: " (codes "60001")
    ++ line "GeneratedUID: " group_guid
    ++ line "GroupMembership: " account_name
    ++ line "GroupMembers: " user_guid
    ++ line "Password: " (codes "*")

abbrev member : Passwd
member = record {
  pw_uid = 60001;
  pw_gid = 60001;
  pw_name = some account_name;
  pw_dir = some home_directory;
  pw_shell = some (codes "/usr/bin/false");
}

abbrev members : Group
members = record { gr_gid = 60001; gr_name = some account_name }

abbrev directory : Directory
directory = record {
  user_named = λ name. some member;
  user_numbered = λ uid. some member;
  group_named = λ name. some members;
  group_numbered = λ gid. some members;
}

loads : load directory (ok receipt) (ok user_text) (ok group_text) ≡ ok account
unfolding load Identity.parse Identity.parse_record Identity.parse_lines Identity.plain_line
    Identity.add_pair Identity.add Identity.get Identity.from_fields Identity.has Identity.is_guid
    Identity.guid_from Identity.guid_byte Identity.validate Identity.match_all
    Identity.user_attributes Identity.group_attributes Identity.lookup Identity.same_user
    Identity.same_home Identity.same_group Route.starts_with parse_unsigned parse_digits
    digits_value to_decimal to_digits split_once text_len trim trim_start trim_end keep lines
    split_inclusive push_front end_line strip_suffix strip_prefix is_whitespace is_empty text_eq
loads = refl

load-IsTrusted_example : IsTrusted directory (ok receipt) (ok user_text) (ok group_text) account
load-IsTrusted_example =
    load-IsTrusted directory (ok receipt) (ok user_text) (ok group_text) account loads

abbrev policy : List ℕ
policy =
    codes "<?xml version=\"1.0\" encoding=\"UTF-8\"?>"
    ++ newline
    ++ codes "<plist version=\"1.0\"><dict><key>com.apple.security.device.usb</key><true/>"
    ++ codes "<key>com.apple.security.app-sandbox</key> <true/></dict></plist>"
    ++ newline

accepts : check policy ≡ ok tt
unfolding check Entitlements.skip_prologue Entitlements.skip_declaration Entitlements.skip_first
    Entitlements.skip Entitlements.entry Entitlements.mark split_once trim trim_start trim_end keep
    lines split_inclusive push_front end_line strip_suffix strip_prefix is_whitespace is_empty
    text_eq
accepts = refl

check-IsPolicy_example : IsPolicy (trim policy)
check-IsPolicy_example = check-IsPolicy policy accepts

-- A system where the bundle is as it was installed.
abbrev answers : List ℕ → List (List ℕ) → Result (List ℕ)
answers path [] = ok []
answers path (a ∷ []) = ok (codes "60001")
answers path (a ∷ key ∷ rest) =
    if text_eq a (codes "-d")
    then ok policy
    else if text_eq key (codes "CFBundleIdentifier")
    then ok (codes "io.galaxybridge.usb-worker")
    else if text_eq key (codes "CFBundleExecutable")
    then ok (codes "galaxybridge-usb")
    else ok (codes "APPL")

abbrev installed : System
installed = record { directory = λ path. ok tt; file = λ path mode. ok tt; text = answers }

checks : Bundle.check installed ≡ ok tt
unfolding Bundle.check Bundle.each Bundle.ancestors Bundle.ancestors_from Bundle.verify
    Bundle.check_info Entitlements.check Entitlements.skip_prologue Entitlements.skip_declaration
    Entitlements.skip_first Entitlements.skip Entitlements.entry Entitlements.mark split_once trim
    trim_start trim_end keep lines split_inclusive push_front end_line strip_suffix strip_prefix
    is_whitespace is_empty text_eq
checks = refl

check-IsTrustedBundle_example : IsTrustedBundle installed
check-IsTrustedBundle_example = check-IsTrustedBundle installed checks

abbrev any_device : Filter
any_device = record { vendor = none; product = none; serial = none }

-- The process that `launchctl` put in its place.
abbrev reentered : Process
reentered = record {
  uid = 0;
  euid = 0;
  no_core = ok tt;
  account = ok account;
  marker = some (some (codes "501"));
  pid = 501;
}

enters : enter installed reentered connect any_device ≡ ok inside
unfolding enter Enter.check_marker Enter.reenter Context.check Context.create
    Context.filter_arguments Context.id_arguments Context.serial_arguments parse_unsigned
    parse_digits digits_value to_decimal to_digits text_eq
enters = refl

enter-Entered_example : Entered installed reentered connect any_device inside
enter-Entered_example = enter-Entered installed reentered connect any_device inside enters
