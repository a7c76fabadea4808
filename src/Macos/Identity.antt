-- ===== src/Macos/Identity.antt =====
-- src/macos/identity.rs: the account of the worker. A text is the list of its characters; an entry of
-- the system's directories is what the lookup call gives, and is a parameter.
pub mod Trust
use galaxybridge.Prelude.{
  ℕ, ◌+◌, ◌^◌, ◌≡◌, Bool, true, false, ◌&&◌, ◌||◌, not, List, [], ◌∷◌, Option, none, some, Result,
  ok, err, Error, message, message_with, ◌>>=◌, ◌>>◌, refuse, ok_or, all, any, length, codes,
  text_eq, is_digit, leb, ltb, ◌==◌, if◌then◌else◌, drop, lines, trim, split_once, strip_prefix,
  is_empty, text_len, parse_unsigned, to_decimal,
}
use galaxybridge.Macos.Route.{starts_with}

-- A `BTreeMap` of texts, whose order nothing depends on.
abbrev pub Fields : Type 0
Fields = List (List ℕ × List ℕ)

unfoldable pub get : List ℕ → Fields → Option (List ℕ)
get key [] = none
get key ((k, v) ∷ fields) = let rest = get key fields in if text_eq k key then some v else rest

abbrev pub malformed : Error
malformed = message "malformed worker identity record"

abbrev pub duplicate : Error
duplicate = message "empty or duplicate worker identity attribute"

-- The attribute `IsHidden` without the prefix that `dscl` writes before it.
unfoldable pub plain_line : ℕ → List ℕ → List ℕ
plain_line separator line =
    if separator == 58 && starts_with line (codes "dsAttrTypeNative:IsHidden:")
    then drop 17 line
    else line

-- `fields.insert(key, value).is_some()` asks whether the key was there.
unfoldable pub add : List ℕ → List ℕ → Fields → Option (List ℕ) → Result Fields
unfolding is_empty
add key value fields (some old) = err duplicate
add key value fields none =
    if is_empty key || is_empty value then err duplicate else ok ((key, value) ∷ fields)

unfoldable pub add_pair : Option (List ℕ × List ℕ) → Fields → Result Fields
unfolding add get
add_pair none fields = err malformed
add_pair (some (key, value)) fields = add (trim key) (trim value) fields (get (trim key) fields)

unfoldable pub parse_lines : ℕ → List (List ℕ) → Fields → Result Fields
unfolding add_pair plain_line
parse_lines separator [] fields = ok fields
parse_lines separator (line ∷ rest) fields = do
  fields' ← add_pair (split_once (separator ∷ []) (plain_line separator line)) fields
  parse_lines separator rest fields'

-- `Record::parse`
unfoldable pub parse_record : List ℕ → ℕ → Result Fields
unfolding parse_lines
parse_record text separator = parse_lines separator (lines text) []

pub record Account : Type 0 where
  pub uid : ℕ
  pub gid : ℕ
  pub user_guid : List ℕ
  pub group_guid : List ℕ

-- The test of a GUID: hyphens at four indices, upper-case hexadecimal digits at the others.
unfoldable pub guid_byte : ℕ → ℕ → Bool
guid_byte index byte =
    if index == 8 || index == 13 || index == 18 || index == 23
    then byte == 45
    else is_digit byte || (leb 65 byte && leb byte 70)

unfoldable pub guid_from : ℕ → List ℕ → Bool
unfolding guid_byte
guid_from index [] = true
guid_from index (b ∷ bs) = guid_byte index b && guid_from (1 + index) bs

unfoldable pub is_guid : List ℕ → Bool
unfolding guid_from
is_guid guid = text_len guid == 36 && guid_from 0 guid

abbrev pub in_range : ℕ → Bool
in_range id = leb 60000 id && leb id 64999

-- `fields.get("version") != Some(&"1")` and the like, negated.
unfoldable pub has : Option (List ℕ) → List ℕ → Bool
has none expected = false
has (some v) expected = text_eq v expected

abbrev number : Option ℕ → Result ℕ
number n = ok_or n (message "invalid digit found in string")

-- `Account::parse`, from the fields on.
unfoldable pub from_fields : Fields → Result Account
unfolding has is_guid get
from_fields fields = do
  refuse (not (length fields == 5) || not (has (get (codes "version") fields) (codes "1")))
      (message "invalid worker identity receipt version or fields")
  uid_text ← ok_or (get (codes "uid") fields) (message "missing worker UID")
  uid ← number (parse_unsigned (2 ^ 32) uid_text)
  gid_text ← ok_or (get (codes "gid") fields) (message "missing worker GID")
  gid ← number (parse_unsigned (2 ^ 32) gid_text)
  refuse (not (in_range uid) || not (in_range gid) || not (uid == gid))
      (message "worker identity is outside its dedicated account range")
  user_guid ← ok_or (get (codes "user_guid") fields) (message "missing worker user GUID")
  group_guid ← ok_or (get (codes "group_guid") fields) (message "missing worker group GUID")
  refuse (not (is_guid user_guid) || not (is_guid group_guid))
      (message "invalid worker identity GUID")
  refuse (text_eq user_guid group_guid) (message "worker user and group GUIDs must differ")
  ok (record { uid = uid; gid = gid; user_guid = user_guid; group_guid = group_guid })

-- `Account::parse`
unfoldable pub parse : List ℕ → Result Account
unfolding from_fields parse_record
parse text = parse_record text 61 >>= from_fields

abbrev pub account_name : List ℕ
account_name = codes "_galaxybridge"

abbrev pub home_directory : List ℕ
home_directory = codes "/private/var/db/io.galaxybridge/worker"

-- What `Account::validate` expects of the two records.
unfoldable pub user_attributes : Account → Fields
user_attributes a =
    (codes "UniqueID", to_decimal a.uid)
    ∷ (codes "PrimaryGroupID", to_decimal a.gid)
    ∷ (codes "GeneratedUID", a.user_guid)
    ∷ (codes "AuthenticationAuthority", codes ";DisabledUser;")
    ∷ (codes "UserShell", codes "/usr/bin/false")
    ∷ (codes "NFSHomeDirectory", home_directory)
    ∷ (codes "IsHidden", codes "1")
    ∷ (codes "Password", codes "*")
    ∷ []

unfoldable pub group_attributes : Account → Fields
group_attributes a =
    (codes "PrimaryGroupID", to_decimal a.gid)
    ∷ (codes "GeneratedUID", a.group_guid)
    ∷ (codes "GroupMembership", account_name)
    ∷ (codes "GroupMembers", a.user_guid)
    ∷ (codes "Password", codes "*")
    ∷ []

unfoldable pub match_all : Error → Fields → Fields → Result (Unit {0})
unfolding has get
match_all e [] fields = ok tt
match_all e ((field, expected) ∷ rest) fields = do
  refuse (not (has (get field fields) expected)) e
  match_all e rest fields

-- `Account::validate`
unfoldable pub validate : Account → List ℕ → List ℕ → Result (Unit {0})
unfolding match_all parse_record user_attributes group_attributes
validate a user group = do
  user_fields ← parse_record user 58
  group_fields ← parse_record group 58
  match_all (message "worker account attribute does not match its receipt: {field}")
      (user_attributes a) user_fields
  match_all (message "worker group attribute does not match its receipt: {field}")
      (group_attributes a) group_fields

-- `libc::passwd` and `libc::group`, whose strings may be null. A lookup gives `none` when it fails or
-- finds no entry.
pub record Passwd : Type 0 where
  pub pw_uid : ℕ
  pub pw_gid : ℕ
  pub pw_name : Option (List ℕ)
  pub pw_dir : Option (List ℕ)
  pub pw_shell : Option (List ℕ)

pub record Group : Type 0 where
  pub gr_gid : ℕ
  pub gr_name : Option (List ℕ)

-- The answers of `getpwnam_r`, `getpwuid_r`, `getgrnam_r` and `getgrgid_r`.
pub record Directory : Type 0 where
  pub user_named : List ℕ → Option Passwd
  pub user_numbered : ℕ → Option Passwd
  pub group_named : List ℕ → Option Group
  pub group_numbered : ℕ → Option Group

unfoldable pub same_user : Account → Option Passwd → Bool
unfolding has
same_user a none = false
same_user a (some user) =
    user.pw_uid == a.uid && user.pw_gid == a.gid && has user.pw_name account_name

-- The home directory and the shell, which the lookup by name compares as well.
unfoldable pub same_home : Option Passwd → Bool
unfolding has
same_home none = false
same_home (some user) = has user.pw_dir home_directory && has user.pw_shell (codes "/usr/bin/false")

unfoldable pub same_group : Account → Option Group → Bool
unfolding has
same_group a none = false
same_group a (some group) = group.gr_gid == a.gid && has group.gr_name account_name

-- `Account::lookup`
unfoldable pub lookup : Directory → Account → Result (Unit {0})
unfolding same_user same_home same_group
lookup d a = do
  refuse
      (not (same_user a (d.user_named account_name)) || not (same_home (d.user_named account_name)))
      (message "system worker user lookup does not match the local receipt")
  refuse (not (same_user a (d.user_numbered a.uid)))
      (message "numeric worker UID lookup points to a different account")
  refuse (not (same_group a (d.group_named account_name)))
      (message "system worker group lookup does not match the local receipt")
  refuse (not (same_group a (d.group_numbered a.gid)))
      (message "numeric worker GID lookup points to a different group")

-- `Account::load`, from the opened receipt on. The first 1025 bytes of the receipt as text, and the
-- two `dscl` commands, are parameters.
unfoldable pub load :
    Directory → Result (List ℕ) → Result (List ℕ) → Result (List ℕ) → Result Account
unfolding parse validate lookup
load d receipt user group = do
  text ← receipt
  refuse (ltb 1024 (text_len text)) (message "worker identity receipt is too large")
  account ← parse text
  user_text ← user
  group_text ← group
  validate account user_text group_text
  lookup d account
  ok account

-- `Caller::home`
unfoldable pub home : ℕ → Option Passwd → Result (List ℕ)
home uid none = err (message "cannot determine the inspection user's home directory")
home uid (some user) = do
  refuse (not (user.pw_uid == uid))
      (message "cannot determine the inspection user's home directory")
  directory ← ok_or user.pw_dir (message "cannot determine the inspection user's home directory")
  refuse (not (starts_with directory (codes "/")))
      (message "inspection home must be an absolute path")
  ok directory
