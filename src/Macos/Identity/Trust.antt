-- ===== src/Macos/Identity/Trust.antt =====
-- What an account that `Account::load` of src/macos/identity.rs returns fulfils.
use galaxybridge.Prelude.{
  ℕ, ◌≡◌, ◌≢◌, ◌≤◌, refl, ap, true, false, List, [], ◌∷◌, Option, none, some, Result, ok, Error,
  bind-ok, refuse-ok, ok-injective, All, codes, text_eq, text_eq_iff, ltb, ◌==◌, arith, text_len,
}
use galaxybridge.Macos.Identity.{
  Fields, get, parse_record, Account, is_guid, in_range, has, from_fields, parse, account_name,
  home_directory, user_attributes, group_attributes, match_all, validate, Passwd, Group, Directory,
  same_user, same_home, same_group, lookup, load,
}

has-some : (o : Option (List ℕ)) (t : List ℕ) → has o t ≡ true → o ≡ some t
unfolding has
has-some none t e = absurd (cc e)
has-some (some v) t e = let same : v ≡ t = (text_eq_iff v t).0 e in ap some same

-- The two identifiers are one number of the range that the installer gives out, and the two GUIDs are
-- well formed and differ.
pub record IsValid (a : Account) : Type 0 where
  pub least : 60000 ≤ a.uid
  pub most : a.uid ≤ 64999
  pub one_id : a.uid ≡ a.gid
  pub user_form : is_guid a.user_guid ≡ true
  pub group_form : is_guid a.group_guid ≡ true
  pub differ : a.user_guid ≢ a.group_guid

-- The fields of a record have each of the attributes.
abbrev pub Agrees : Fields → Fields → Type 0
Agrees fields attributes = All (λ p. get p.0 fields ≡ some p.1) attributes

-- A record of a directory, as `dscl` prints it, has each of the attributes.
abbrev pub Records : List ℕ → Fields → Type 0
Records text attributes =
    (fields : Fields) × (parse_record text 58 ≡ ok fields) × Agrees fields attributes

-- The entry of a lookup is the account's.
abbrev pub IsUser : Account → Option Passwd → Type 0
IsUser a found =
    (user : Passwd) × (found ≡ some user)
    × (user.pw_uid ≡ a.uid)
    × (user.pw_gid ≡ a.gid)
    × (user.pw_name ≡ some account_name)

abbrev pub IsGroup : Account → Option Group → Type 0
IsGroup a found =
    (group : Group) × (found ≡ some group)
    × (group.gr_gid ≡ a.gid)
    × (group.gr_name ≡ some account_name)

pub record IsKnown (d : Directory) (a : Account) : Type 0 where
  pub by_name : IsUser a (d.user_named account_name)
  pub at_home :
      (user : Passwd) × (d.user_named account_name ≡ some user)
      × (user.pw_dir ≡ some home_directory)
      × (user.pw_shell ≡ some (codes "/usr/bin/false"))
  pub by_number : IsUser a (d.user_numbered a.uid)
  pub group_by_name : IsGroup a (d.group_named account_name)
  pub group_by_number : IsGroup a (d.group_numbered a.gid)

pub record IsTrusted (d : Directory) (receipt user group : Result (List ℕ)) (a : Account)
    : Type 0 where
  pub receipt_text : List ℕ
  pub received : receipt ≡ ok receipt_text
  pub short : text_len receipt_text ≤ 1024
  pub parsed : parse receipt_text ≡ ok a
  pub valid : IsValid a
  pub user_record : (text : List ℕ) × (user ≡ ok text) × Records text (user_attributes a)
  pub group_record : (text : List ℕ) × (group ≡ ok text) × Records text (group_attributes a)
  pub known : IsKnown d a

match_all-Agrees :
    (e : Error) (attributes fields : Fields)
    → match_all e attributes fields ≡ ok tt
    → Agrees fields attributes
unfolding match_all
match_all-Agrees e [] fields h = tt
match_all-Agrees e ((field, expected) ∷ rest) fields h = (
  has-some (get field fields) expected (ground arith),
  match_all-Agrees e rest fields (ground arith),
)

same_user-IsUser : (a : Account) (o : Option Passwd) → same_user a o ≡ true → IsUser a o
unfolding same_user
same_user-IsUser a none e = absurd (cc e)
same_user-IsUser a (some u) e =
    (u, refl, ground arith, ground arith, has-some u.pw_name account_name (ground arith))

same_home-IsHome :
    (o : Option Passwd)
    → same_home o ≡ true
    → (user : Passwd) × (o ≡ some user)
      × (user.pw_dir ≡ some home_directory)
      × (user.pw_shell ≡ some (codes "/usr/bin/false"))
unfolding same_home
same_home-IsHome none e = absurd (cc e)
same_home-IsHome (some u) e = (
  u,
  refl,
  has-some u.pw_dir home_directory (ground arith),
  has-some u.pw_shell (codes "/usr/bin/false") (ground arith),
)

same_group-IsGroup : (a : Account) (o : Option Group) → same_group a o ≡ true → IsGroup a o
unfolding same_group
same_group-IsGroup a none e = absurd (cc e)
same_group-IsGroup a (some g) e =
    (g, refl, ground arith, has-some g.gr_name account_name (ground arith))

lookup-IsKnown : (d : Directory) (a : Account) → lookup d a ≡ ok tt → IsKnown d a
unfolding lookup
lookup-IsKnown d a e = record {
  by_name = same_user-IsUser a _ (ground arith);
  at_home = same_home-IsHome _ (ground arith);
  by_number = same_user-IsUser a _ (ground arith);
  group_by_name = same_group-IsGroup a _ (ground arith);
  group_by_number = same_group-IsGroup a _ (ground arith);
}

-- What `Account::validate` found in the two records.
record Validated (a : Account) (user group : List ℕ) : Type 0 where
  user_record : Records user (user_attributes a)
  group_record : Records group (group_attributes a)

validate-Validated :
    (a : Account) (user group : List ℕ) → validate a user group ≡ ok tt → Validated a user group
unfolding validate
validate-Validated a user group e =
    let (user_fields, found, e') = bind-ok (parse_record user 58) _ tt e in
    let (group_fields, found', e'') = bind-ok (parse_record group 58) _ tt e' in
    let (u, first, second) = bind-ok (match_all _ (user_attributes a) user_fields) _ tt e'' in
    record {
      user_record = (user_fields, found, match_all-Agrees _ (user_attributes a) user_fields first);
      group_record =
          (group_fields, found', match_all-Agrees _ (group_attributes a) group_fields second);
    }

record Forms (a : Account) : Type 0 where
  ids : in_range a.uid ≡ true
  same_ids : (a.uid == a.gid) ≡ true
  user_form : is_guid a.user_guid ≡ true
  group_form : is_guid a.group_guid ≡ true
  differ : text_eq a.user_guid a.group_guid ≡ false

Forms-IsValid : (a : Account) → Forms a → IsValid a
Forms-IsValid a f = record {
  least = ground (arith, f.ids);
  most = ground (arith, f.ids);
  one_id = ground (arith, f.same_ids);
  user_form = f.user_form;
  group_form = f.group_form;
  differ = λ e. absurd (cc (f.differ, (text_eq_iff a.user_guid a.group_guid).1 e));
}

from_fields-Forms : (fields : Fields) (a : Account) → from_fields fields ≡ ok a → Forms a
unfolding from_fields
from_fields-Forms fields a e = record {
  ids = ground arith;
  same_ids = ground arith;
  user_form = ground arith;
  group_form = ground arith;
  differ = ground arith;
}

parse-IsValid : (text : List ℕ) (a : Account) → parse text ≡ ok a → IsValid a
unfolding parse
parse-IsValid text a e =
    let (fields, read, e') = bind-ok (parse_record text 61) from_fields a e in
    Forms-IsValid a (from_fields-Forms fields a e')

-- For the answers of the directory, the receipt and the two records: when `Account::load` returns
-- an account, the receipt has at most 1024 bytes and parses to it; its user and group identifiers
-- are one number from 60000 to 64999; its two GUIDs are well formed and differ; each attribute that
-- `Account::validate` names stands in the user record and the group record with the value of the
-- account; and the user and the group found by name and by number are the ones of the account.
pub load-IsTrusted :
    (d : Directory) (receipt user group : Result (List ℕ)) (a : Account)
    → load d receipt user group ≡ ok a
    → IsTrusted d receipt user group a
unfolding load
load-IsTrusted d receipt user group a e =
    let (text, received, e1) = bind-ok receipt _ a e in
    let (short, e2) = refuse-ok (ltb 1024 (text_len text)) _ _ a e1 in
    let (account, parsed, e3) = bind-ok (parse text) _ a e2 in
    let (user_text, told, e4) = bind-ok user _ a e3 in
    let (group_text, told', e5) = bind-ok group _ a e4 in
    let (u, validated, e6) = bind-ok (validate account user_text group_text) _ a e5 in
    let (u', looked, e7) = bind-ok (lookup d account) _ a e6 in
    let v = validate-Validated account user_text group_text validated in
    rw (← ok-injective e7) (record {
      receipt_text = text;
      received = received;
      short = ground (arith, short);
      parsed = parsed;
      valid = parse-IsValid text account parsed;
      user_record = (user_text, told, v.user_record);
      group_record = (group_text, told', v.group_record);
      known = lookup-IsKnown d account looked;
    })
