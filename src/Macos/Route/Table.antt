-- ===== src/Macos/Route/Table.antt =====
-- src/macos/route.rs, `Table::has_vpn`: the tunnels in the table that netstat(1) prints.
use galaxybridge.Prelude.{
  ℕ, suc, ◌≡◌, ◌↔◌, ◌⊎◌, inl, inr, refl, sym, ◌∙◌, ap, Bool, true, false, ◌&&◌, not, List, [], ◌∷◌,
  ◌++◌, Option, none, some, Result, ok, err, message, all, All, get_elem?, codes, text_eq, is_digit,
  if◌then◌else◌, Bool-cases, lines, split_whitespace, strip_prefix, is_empty,
}
use mathlib.Core.Option

-- `fields.first() == Some(&"Destination")`
unfoldable pub is_header : List (List ℕ) → Bool
is_header [] = false
is_header (f ∷ fs) = text_eq f (codes "Destination")

-- `Iterator::position` of a text.
unfoldable pub position : List ℕ → List (List ℕ) → Option ℕ
position key [] = none
position key (f ∷ fs) =
    let rest = Option.map suc (position key fs) in if text_eq f key then some 0 else rest

-- `strip_prefix("utun").is_some_and(..)`, behind the prefix.
unfoldable pub is_number : Option (List ℕ) → Bool
is_number none = false
is_number (some n) = not (is_empty n) && all is_digit n

unfoldable pub is_tunnel : Option (List ℕ) → Bool
unfolding is_number
is_tunnel none = false
is_tunnel (some name) = is_number (strip_prefix (codes "utun") name)

-- A row, under the column of the interface if there is one.
unfoldable pub shows : Option ℕ → List (List ℕ) → Bool
unfolding is_tunnel
shows none fields = false
shows (some index) fields = is_tunnel (get_elem? fields index)

unfoldable pub scan : Option ℕ → List (List ℕ) → Result Bool
unfolding is_header position shows
scan none [] = err (message "unrecognized route table; refusing routing changes")
scan (some index) [] = ok false
scan column (line ∷ ls) =
    let fields = split_whitespace line in
    let below = scan (position (codes "Netif") fields) ls in
    let rest = scan column ls in
    if is_header fields then below else if shows column fields then ok true else rest

-- `Table::has_vpn`
unfoldable pub has_vpn : List ℕ → Result Bool
unfolding scan
has_vpn text = scan none (lines text)

abbrev IsHeader : List ℕ → Type 0
IsHeader line = is_header (split_whitespace line) ≡ true

abbrev IsRow : List ℕ → Type 0
IsRow line = is_header (split_whitespace line) ≡ false

-- Before the next header, a row names a tunnel in the column.
pub record Under (index : ℕ) (ls : List (List ℕ)) : Type 0 where
  pub before : List (List ℕ)
  pub row : List ℕ
  pub after : List (List ℕ)
  pub whole : ls ≡ before ++ row ∷ after
  pub rows : All IsRow before
  pub is_row : IsRow row
  pub names : is_tunnel (get_elem? (split_whitespace row) index) ≡ true

-- A header whose `Netif` column shows a tunnel in the rows that follow.
pub record Tunnel (ls : List (List ℕ)) : Type 0 where
  pub before : List (List ℕ)
  pub header : List ℕ
  pub rest : List (List ℕ)
  pub index : ℕ
  pub whole : ls ≡ before ++ header ∷ rest
  pub is_header_line : IsHeader header
  pub column : position (codes "Netif") (split_whitespace header) ≡ some index
  pub under : Under index rest

abbrev Seen : Option ℕ → List (List ℕ) → Type 0
Seen column ls = ((i : ℕ) × (column ≡ some i) × Under i ls) ⊎ Tunnel ls

Under-cons : (i : ℕ) (l : List ℕ) (ls : List (List ℕ)) → IsRow l → Under i ls → Under i (l ∷ ls)
Under-cons i l ls row u = record {
  before = l ∷ u.before;
  row = u.row;
  after = u.after;
  whole = ap (◌∷◌ l) u.whole;
  rows = (row, u.rows);
  is_row = u.is_row;
  names = u.names;
}

Tunnel-cons : (l : List ℕ) (ls : List (List ℕ)) → Tunnel ls → Tunnel (l ∷ ls)
Tunnel-cons l ls t = record {
  before = l ∷ t.before;
  header = t.header;
  rest = t.rest;
  index = t.index;
  whole = ap (◌∷◌ l) t.whole;
  is_header_line = t.is_header_line;
  column = t.column;
  under = t.under;
}

-- Behind a header line what is seen is a tunnel of the whole.
seen-header :
    (l : List ℕ) (ls : List (List ℕ))
    → IsHeader l
    → Seen (position (codes "Netif") (split_whitespace l)) ls
    → Tunnel (l ∷ ls)
seen-header l ls header (inl (i, e, u)) = record {
  before = [];
  header = l;
  rest = ls;
  index = i;
  whole = refl;
  is_header_line = header;
  column = e;
  under = u;
}
seen-header l ls header (inr t) = Tunnel-cons l ls t

seen-row :
    (column : Option ℕ) (l : List ℕ) (ls : List (List ℕ))
    → IsRow l
    → Seen column ls
    → Seen column (l ∷ ls)
seen-row column l ls row (inl (i, e, u)) = inl (i, e, Under-cons i l ls row u)
seen-row column l ls row (inr t) = inr (Tunnel-cons l ls t)

seen-here :
    (column : Option ℕ) (l : List ℕ) (ls : List (List ℕ))
    → IsRow l
    → shows column (split_whitespace l) ≡ true
    → Seen column (l ∷ ls)
unfolding shows
seen-here none l ls row e = absurd (cc e)
seen-here (some i) l ls row e = inl (
  i,
  refl,
  record { before = []; row = l; after = ls; whole = refl; rows = tt; is_row = row; names = e },
)

-- One line of the scan, whichever the column is.
scan_cons :
    (column : Option ℕ) (l : List ℕ) (ls : List (List ℕ))
    → scan column (l ∷ ls) ≡ (
        if is_header (split_whitespace l)
        then scan (position (codes "Netif") (split_whitespace l)) ls
        else (if shows column (split_whitespace l) then ok true else scan column ls))
unfolding scan
scan_cons none l ls = refl
scan_cons (some i) l ls = refl

scan-Seen : (ls : List (List ℕ)) (column : Option ℕ) → scan column ls ≡ ok true → Seen column ls
unfolding scan
scan-Seen [] none e = absurd (cc e)
scan-Seen [] (some i) e = absurd (cc e)
scan-Seen (l ∷ ls) column e =
    let e' = sym (scan_cons column l ls) ∙ e in
    elim (Bool-cases (is_header (split_whitespace l))) [
      | inl header ↦ inr (seen-header l ls header (scan-Seen ls _ (rw header at e')))
      | inr row ↦ elim (Bool-cases (shows column (split_whitespace l))) [
        | inl here ↦ seen-here column l ls row here
        | inr other ↦ seen-row column l ls row (scan-Seen ls column (rw (row, other) at e'))
      ]
    ]

-- A line that leaves the scan at what is true of the rest, whether it shows a tunnel or not.
either_way : (b : Bool) → (if b then ok true else ok true) ≡ ok true
either_way true = refl
either_way false = refl

-- A line in front of what shows a tunnel: it shows one itself, or the scan goes on.
Under-scan :
    (column : Option ℕ) (i : ℕ) (before : List (List ℕ)) (row : List ℕ) (after : List (List ℕ))
    → column ≡ some i
    → All IsRow before
    → IsRow row
    → is_tunnel (get_elem? (split_whitespace row) i) ≡ true
    → scan column (before ++ row ∷ after) ≡ ok true
unfolding shows
Under-scan column i [] row after e rows is_row names =
    scan_cons column row after ∙ rw (is_row, e, names) refl
Under-scan column i (l ∷ before) row after e (first, rows) is_row names =
    scan_cons column l (before ++ row ∷ after)
    ∙ rw (first, Under-scan column i before row after e rows is_row names)
        (either_way (shows column (split_whitespace l)))

both_ways : (a b : Bool) → (if a then ok true else (if b then ok true else ok true)) ≡ ok true
both_ways true b = refl
both_ways false b = either_way b

only-Tunnel : (ls : List (List ℕ)) → Seen none ls → Tunnel ls
only-Tunnel ls (inl (i, e, u)) = absurd (cc e)
only-Tunnel ls (inr t) = t

Tunnel-scan :
    (before : List (List ℕ)) (column : Option ℕ) (header : List ℕ) (rest : List (List ℕ))
    → IsHeader header
    → scan (position (codes "Netif") (split_whitespace header)) rest ≡ ok true
    → scan column (before ++ header ∷ rest) ≡ ok true
Tunnel-scan [] column header rest h e = scan_cons column header rest ∙ rw (h, e) refl
Tunnel-scan (l ∷ before) column header rest h e =
    let below =
      Tunnel-scan before (position (codes "Netif") (split_whitespace l)) header rest h e in
    let beside = Tunnel-scan before column header rest h e in
    scan_cons column l (before ++ header ∷ rest)
    ∙ rw (below, beside)
        (both_ways (is_header (split_whitespace l)) (shows column (split_whitespace l)))

-- For any text: `Table::has_vpn` finds a tunnel exactly when, in the lines of the text, a row below
-- a header line, with no other header line between them, names a `utun` interface with a number in
-- the column where the header says `Netif`.
pub has_vpn_iff : (text : List ℕ) → (has_vpn text ≡ ok true) ↔ Tunnel (lines text)
unfolding has_vpn
has_vpn_iff text = (
  λ e. only-Tunnel (lines text) (scan-Seen (lines text) none e),
  λ t.
      let u = t.under in
      rw t.whole (
        Tunnel-scan t.before none t.header t.rest t.is_header_line (
          rw u.whole
            (Under-scan _ t.index u.before u.row u.after t.column u.rows u.is_row u.names))),
)
