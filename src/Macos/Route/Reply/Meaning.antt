-- ===== src/Macos/Route/Reply/Meaning.antt =====
-- What the replies of route(8) mean to src/macos/route.rs.
use mathlib.Core.Option
use galaxybridge.Prelude.{
  ℕ, ◌≡◌, ◌≢◌, ◌⊎◌, ◌≤◌, inl, inr, refl, sym, ◌∙◌, ap, true, false, ◌&&◌, ◌||◌, not, List, [], ◌∷◌,
  Option, none, some, ok, Error, ok_or, bind-ok, ok_or-ok, ok-injective, all, codes, text_eq,
  text_eq_iff, Bool-cases, arith, from_utf8, trim, strip_prefix, is_empty, text_len, parse_ipv4,
}
use galaxybridge.Macos.Command.{Output, Status, exited, signalled, success}
use galaxybridge.Macos.Route.{Snapshot}
use galaxybridge.Macos.Route.Reply.{
  field, is_alphanumeric, is_interface, is_link, with_gateway, with_interface, from_fields, parse,
  not_in_table, classify, reply,
}

-- A text of route(8) names the interface and the gateway of the route. A gateway that is no IPv4
-- address is the number of a link.
pub record Prints (text : List ℕ) (s : Snapshot) : Type 0 where
  pub named : field (codes "interface:") text ≡ some s.interface
  pub filled : is_empty s.interface ≡ false
  pub short : text_len s.interface ≤ 15
  pub plain : all is_alphanumeric s.interface ≡ true
  pub raw : List ℕ
  pub given : field (codes "gateway:") text ≡ some raw
  pub address : s.gateway ≡ parse_ipv4 raw
  pub link : (s.gateway ≢ none) ⊎ (is_link (strip_prefix (codes "link#") raw) ≡ true)

-- There is no default route, or it is the route that the command printed.
pub record IsAbsent (stdout stderr : List ℕ) : Type 0 where
  pub silent : trim stdout ≡ []
  pub exact : trim stderr ≡ not_in_table

pub record IsPresent (stdout stderr : List ℕ) (status : Status) (s : Snapshot) : Type 0 where
  pub succeeded : status ≡ exited 0
  pub no_complaint : trim stderr ≡ []
  pub prints : Prints (trim stdout) s

abbrev pub IsReply : List ℕ → List ℕ → Status → Option Snapshot → Type 0
IsReply stdout stderr status none = IsAbsent stdout stderr
IsReply stdout stderr status (some s) = IsPresent stdout stderr status s

is_empty→nil : (t : List ℕ) → is_empty t ≡ true → t ≡ []
unfolding is_empty
is_empty→nil [] e = refl
is_empty→nil (c ∷ cs) e = absurd (cc e)

success→exited : (status : Status) → success status ≡ true → status ≡ exited 0
unfolding success
success→exited (exited code) e = ap exited (ground arith)
success→exited (signalled signal) e = absurd (cc e)

with_gateway-some :
    (interface : List ℕ) (gateway : Option ℕ) (link : Option (List ℕ)) (s : Snapshot)
    → with_gateway interface gateway link ≡ some s
    → (s.interface ≡ interface)
      × (s.gateway ≡ gateway)
      × ((s.gateway ≢ none) ⊎ (is_link link ≡ true))
unfolding with_gateway
with_gateway-some interface (some g) link s e = (
  cc (ap (Option.map (λ r. r.interface)) e),
  cc (ap (Option.map (λ r. r.gateway)) e),
  inl (λ e'. cc (ap (Option.map (λ r. r.gateway)) e, e')),
)
with_gateway-some interface none link s e = elim (Bool-cases (is_link link)) [
  | inl linked ↦
      let e' : some (record { interface = interface; gateway = none }) ≡ some s = rw linked at e in
      (
        cc (ap (Option.map (λ r. r.interface)) e'),
        cc (ap (Option.map (λ r. r.gateway)) e'),
        inr linked,
      )
  | inr other ↦ absurd (cc (rw other at e))
]

record Fields (interface gateway : Option (List ℕ)) (s : Snapshot) : Type 0 where
  named : interface ≡ some s.interface
  valid : is_interface s.interface ≡ true
  raw : List ℕ
  given : gateway ≡ some raw
  address : s.gateway ≡ parse_ipv4 raw
  link : (s.gateway ≢ none) ⊎ (is_link (strip_prefix (codes "link#") raw) ≡ true)

from_fields-Fields :
    (interface gateway : Option (List ℕ)) (s : Snapshot)
    → from_fields interface gateway ≡ some s
    → Fields interface gateway s
unfolding from_fields with_interface
from_fields-Fields none gateway s e = absurd (cc e)
from_fields-Fields (some interface) none s e = elim (Bool-cases (is_interface interface)) [
  | inl valid ↦ absurd (cc (rw valid at e))
  | inr bad ↦ absurd (cc (rw bad at e))
]
from_fields-Fields (some interface) (some raw) s e = elim (Bool-cases (is_interface interface)) [
  | inr bad ↦ absurd (cc (rw bad at e))
  | inl valid ↦
      let (name, gateway, linked) =
        with_gateway-some interface (parse_ipv4 raw) (strip_prefix (codes "link#") raw) s
          (rw valid at e) in
      record {
        named = ap some (sym name);
        valid = rw name valid;
        raw = raw;
        given = refl;
        address = gateway;
        link = linked;
      }
]

is_interface-parts :
    (name : List ℕ)
    → is_interface name ≡ true
    → (is_empty name ≡ false) × (text_len name ≤ 15) × (all is_alphanumeric name ≡ true)
unfolding is_interface
is_interface-parts name e = (ground arith, ground arith, ground arith)

parse-Prints : (text : List ℕ) (s : Snapshot) → parse text ≡ some s → Prints text s
unfolding parse
parse-Prints text s e =
    let f = from_fields-Fields _ _ s e in
    let (filled, short, plain) = is_interface-parts s.interface f.valid in
    record {
      named = f.named;
      filled = filled;
      short = short;
      plain = plain;
      raw = f.raw;
      given = f.given;
      address = f.address;
      link = f.link;
    }

absent-meaning :
    (stdout stderr : List ℕ) (status : Status) (r : Option Snapshot)
    → (is_empty (trim stdout) && text_eq (trim stderr) not_in_table) ≡ true
    → ok none ≡ ok r
    → IsReply stdout stderr status r
absent-meaning stdout stderr status (some s) h e = absurd (cc e)
absent-meaning stdout stderr status none h e = record {
  silent = is_empty→nil (trim stdout) (ground arith);
  exact = (text_eq_iff (trim stderr) not_in_table).0 (ground arith);
}

present-meaning :
    (stdout stderr : List ℕ) (status : Status) (r o : Option Snapshot) (x : Error)
    → (not (success status) || not (is_empty (trim stderr))) ≡ false
    → parse (trim stdout) ≡ o
    → ok_or (Option.map some o) x ≡ ok r
    → IsReply stdout stderr status r
present-meaning stdout stderr status r none x h found e = absurd (cc e)
present-meaning stdout stderr status none (some s) x h found e = absurd (cc (ok-injective e))
present-meaning stdout stderr status (some s') (some s) x h found e = record {
  succeeded = success→exited status (ground arith);
  no_complaint = is_empty→nil (trim stderr) (ground arith);
  prints = parse-Prints (trim stdout) s' (found ∙ ok-injective e);
}

classify-meaning :
    (stdout stderr : List ℕ) (status : Status) (r : Option Snapshot)
    → classify (trim stdout) (trim stderr) (success status) ≡ ok r
    → IsReply stdout stderr status r
unfolding classify
classify-meaning stdout stderr status r e =
    elim (Bool-cases (is_empty (trim stdout) && text_eq (trim stderr) not_in_table)) [
      | inl absent ↦ absent-meaning stdout stderr status r absent (rw absent at e)
      | inr present ↦ elim (Bool-cases (not (success status) || not (is_empty (trim stderr)))) [
        | inl refused ↦ absurd (cc (rw (present, refused) at e))
        | inr fine ↦ present-meaning stdout stderr status r _ _ fine refl (rw (present, fine) at e)
      ]
    ]

-- The two streams of an output are texts, and the reply means what they say.
pub record Means (output : Output) (r : Option Snapshot) : Type 0 where
  pub stdout : List ℕ
  pub stderr : List ℕ
  pub decoded : from_utf8 output.stdout ≡ some stdout
  pub decoded_errors : from_utf8 output.stderr ≡ some stderr
  pub meaning : IsReply stdout stderr output.status r

-- For an output of route(8) from which `Reply::parse` returns no error: both streams are UTF-8, and
-- it returns no route only for an empty output with the one message that there is none in the
-- table, and a route only for a successful exit, no message, and a text that names the interface (1
-- to 15 alphanumeric bytes) and the gateway (its IPv4 address, or none for the number of a link).
-- All other outputs are errors.
pub reply-Means : (output : Output) (r : Option Snapshot) → reply output ≡ ok r → Means output r
unfolding reply
reply-Means output r e =
    let (stdout, decoded, e') = bind-ok (ok_or (from_utf8 output.stdout) _) _ r e in
    let (stderr, decoded', e'') = bind-ok (ok_or (from_utf8 output.stderr) _) _ r e' in
    record {
      stdout = stdout;
      stderr = stderr;
      decoded = ok_or-ok (from_utf8 output.stdout) _ stdout decoded;
      decoded_errors = ok_or-ok (from_utf8 output.stderr) _ stderr decoded';
      meaning = classify-meaning stdout stderr output.status r e'';
    }
