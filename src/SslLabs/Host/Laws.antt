-- ===== src/SslLabs/Host/Laws.antt =====
-- Which hosts are scanned.
use caddybuddy.Text.{is_digit, is_lower, text_eq_iff}
use caddybuddy.Domains.Shape.{is_alnum, is_inner, is_tail, is_label}
use caddybuddy.Text.{member}
use caddybuddy.SslLabs.Host.{
  text, has_char, is_space, is_url_char, blocked_suffixes, ends_with, strip, blocked_hosts, is_dot,
  rstrip_by, judge_labels, split_at, Text, validate_ssllabs_host, ScanHost, scan_host,
}
use caddybuddy.Prelude.{
  ℕ, ◌≤◌, ◌≡◌, refl, sym, ap, ◌∙◌, subst, ◌≢◌, ◌⊎◌, inl, inr, Bool, true, false, not, ◌||◌,
  false≢true, List, [], ◌∷◌, ◌++◌, arith, ltb, if◌then◌else◌, ==_iff, Bool-cases, and-eq-true,
  length, is_nil, All, all, any,
}

-- A letter or a digit of ASCII in lower case.
abbrev pub IsAlnum : ℕ → Type 0
IsAlnum c = ((97 ≤ c) × (c ≤ 122)) ⊎ ((48 ≤ c) × (c ≤ 57))

-- Letters, digits and hyphens, and the last is no hyphen.
abbrev pub IsLabelEnd : Text → Type 0
IsLabelEnd [] = 1 ≤ 0
IsLabelEnd (c ∷ []) = IsAlnum c
IsLabelEnd (c ∷ d ∷ s) = (IsAlnum c ⊎ (c ≡ 45)) × IsLabelEnd (d ∷ s)

-- A DNS label: 1 to 63 letters, digits and hyphens, with no hyphen at its ends.
abbrev pub IsLabel : Text → Type 0
IsLabel [] = 1 ≤ 0
IsLabel (c ∷ s) = IsAlnum c × IsLabelEnd (c ∷ s) × (length s ≤ 62)

-- A host of two DNS labels or more, which is no address and ends in no reserved suffix, nor is
-- `localhost`.
pub record IsPublic (is_ip : Text → Bool) (h : Text) : Type 0 where
  pub two_labels : 2 ≤ length (split_at b'.' h)
  pub labels : All IsLabel (split_at b'.' h)
  pub no_address : is_ip h ≡ false
  pub no_localhost : h ≢ text "localhost"
  pub no_suffix :
      All
        (λ suffix. (p : Text) → h ≢ p ++ suffix)
        (text ".local"
          ∷ text ".localhost"
          ∷ text ".internal"
          ∷ text ".lan"
          ∷ text ".home"
          ∷ text ".home.arpa"
          ∷ text ".test"
          ∷ text ".invalid"
          ∷ text ".example"
          ∷ [])

is_alnum-IsAlnum : (c : ℕ) → is_alnum c ≡ true → IsAlnum c
unfolding is_alnum is_lower is_digit
is_alnum-IsAlnum c h = ground arith

is_inner-IsInner : (c : ℕ) → is_inner c ≡ true → IsAlnum c ⊎ (c ≡ 45)
unfolding is_inner
is_inner-IsInner c h = elim (Bool-cases (is_alnum c)) [
  | inl fits ↦ inl (is_alnum-IsAlnum c fits)
  | inr odd ↦ inr ((==_iff c 45).0 (ground (arith, h, odd)))
]

is_tail-IsLabelEnd : (s : Text) → is_tail s ≡ true → IsLabelEnd s
unfolding is_tail
is_tail-IsLabelEnd [] h = absurd (ground (arith, h))
is_tail-IsLabelEnd (c ∷ []) h = is_alnum-IsAlnum c h
is_tail-IsLabelEnd (c ∷ d ∷ s) h =
    let both = and-eq-true (is_inner c) (is_tail (d ∷ s)) h in
    (is_inner-IsInner c both.0, is_tail-IsLabelEnd (d ∷ s) both.1)

is_label-IsLabel : (s : Text) → is_label s ≡ true → IsLabel s
unfolding is_label
is_label-IsLabel [] h = absurd (ground (arith, h))
is_label-IsLabel (c ∷ []) h = (is_alnum-IsAlnum c h, is_alnum-IsAlnum c h, omega arith)
is_label-IsLabel (c ∷ d ∷ s) h =
    let first : is_alnum c ≡ true = ground (arith, h) in
    let others : is_tail (d ∷ s) ≡ true = ground (arith, h) in
    (
      is_alnum-IsAlnum c first,
      (inl (is_alnum-IsAlnum c first), is_tail-IsLabelEnd (d ∷ s) others),
      ground (arith, h),
    )

All-IsLabel : (labels : List Text) → all is_label labels ≡ true → All IsLabel labels
unfolding all
All-IsLabel [] h = tt
All-IsLabel (l ∷ labels) h =
    let both = and-eq-true (is_label l) (all is_label labels) h in
    (is_label-IsLabel l both.0, All-IsLabel labels both.1)

ends_with_self : (s : Text) → ends_with s s ≡ true
unfolding ends_with
ends_with_self [] = refl
ends_with_self (c ∷ s) = ground (arith, (text_eq_iff (c ∷ s) (c ∷ s)).1 refl)

ends_with-append : (p suffix : Text) → ends_with suffix (p ++ suffix) ≡ true
unfolding ends_with
ends_with-append [] suffix = ends_with_self suffix
ends_with-append (c ∷ p) suffix = ground (arith, ends_with-append p suffix)

true≢false : true ≢ false
true≢false h = false≢true (sym h)

no_such_end : (suffix h : Text) → ends_with suffix h ≡ false → (p : Text) → h ≢ p ++ suffix
no_such_end suffix h off p same =
    true≢false (sym (ends_with-append p suffix) ∙ ap (ends_with suffix) (sym same) ∙ off)

All-no_such_end :
    (h : Text) (suffixes : List Text)
    → any (λ suffix. ends_with suffix h) suffixes ≡ false
    → All (λ suffix. (p : Text) → h ≢ p ++ suffix) suffixes
unfolding any
All-no_such_end h [] off = tt
All-no_such_end h (suffix ∷ suffixes) off =
    (no_such_end suffix h (ground (arith, off)), All-no_such_end h suffixes (ground (arith, off)))

no_localhost : (h : Text) → member h blocked_hosts ≡ false → h ≢ text "localhost"
unfolding member
no_localhost h off same =
    let equal = (text_eq_iff h (text "localhost")).1 same in ground (arith, off, equal)

refuses :
    (b : Bool) (e x : ScanHost) (r : Text)
    → e ≢ scan_host r
    → (if b then e else x) ≡ scan_host r
    → (b ≡ false) × (x ≡ scan_host r)
refuses true e x r bad h = absurd (bad h)
refuses false e x r bad h = (refl, h)

scan_host-eq : (a b : Text) → scan_host a ≡ scan_host b → a ≡ b
scan_host-eq a b h = ground (arith, h)

not-false : (b : Bool) → not b ≡ false → b ≡ true
not-false true h = refl
not-false false h = ground (arith, h)

both-false : (a b : Bool) → (a || b) ≡ false → (a ≡ false) × (b ≡ false)
both-false a b h = (ground (arith, h), ground (arith, h))

no_less : (a b : ℕ) → ltb a b ≡ false → b ≤ a
no_less a b h = ground (arith, h)

-- An accepted host is the given one, stripped, without the dots at its end and case-folded. It has two
-- DNS labels or more, each of 1 to 63 lower-case letters, digits and hyphens with no hyphen at an
-- end, is not recognised as an address, is not `localhost`, and ends in none of the nine suffixes
-- of private and reserved names.
pub validate_ssllabs_host-IsPublic :
    (casefold : Text → Text) (is_ip : Text → Bool) (host result : Text)
    → validate_ssllabs_host casefold is_ip host ≡ scan_host result
    → (result ≡ casefold (rstrip_by is_dot (strip host))) × IsPublic is_ip result
unfolding validate_ssllabs_host judge_labels
validate_ssllabs_host-IsPublic casefold is_ip host result h =
    let n = casefold (rstrip_by is_dot (strip host)) in
    let labels = split_at b'.' n in
    let valid = if not (all is_label labels) then ScanHost.not_valid else scan_host n in
    let few = ltb (length labels) 2 || any is_nil labels in
    let judged = if few then ScanHost.not_public else valid in
    let named = if is_ip n then ScanHost.not_public else judged in
    let blocked = member n blocked_hosts || any (λ suffix. ends_with suffix n) blocked_suffixes in
    let open_ = if blocked then ScanHost.not_public else named in
    let plain = if any is_url_char n then ScanHost.is_url else open_ in
    let solid = if any is_space n then ScanHost.has_whitespace else plain in
    let h1 =
      refuses (is_nil n || has_char b'*' n) ScanHost.not_concrete solid result
        (λ e. ground (arith, e)) h in
    let h2 =
      refuses (any is_space n) ScanHost.has_whitespace plain result (λ e. ground (arith, e)) h1.1 in
    let h3 =
      refuses (any is_url_char n) ScanHost.is_url open_ result (λ e. ground (arith, e)) h2.1 in
    let h4 = refuses blocked ScanHost.not_public named result (λ e. ground (arith, e)) h3.1 in
    let h5 = refuses (is_ip n) ScanHost.not_public judged result (λ e. ground (arith, e)) h4.1 in
    let h6 = refuses few ScanHost.not_public valid result (λ e. ground (arith, e)) h5.1 in
    let h7 =
      refuses (not (all is_label labels)) ScanHost.not_valid (scan_host n) result
        (λ e. ground (arith, e)) h6.1 in
    let same = scan_host-eq n result h7.1 in
    let free =
      both-false (member n blocked_hosts) (any (λ suffix. ends_with suffix n) blocked_suffixes)
        h4.0 in
    (
      sym same,
      subst (IsPublic is_ip) same (record {
        two_labels =
            no_less (length labels) 2
              (both-false (ltb (length labels) 2) (any is_nil labels) h6.0).0;
        labels = All-IsLabel labels (not-false (all is_label labels) h7.0);
        no_address = h5.0;
        no_localhost = no_localhost n free.0;
        no_suffix = All-no_such_end n blocked_suffixes free.1;
      }),
    )
