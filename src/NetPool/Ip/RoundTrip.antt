-- ===== src/NetPool/Ip/RoundTrip.antt =====
-- IPv4 addresses and networks: what is printed reads back.
use kaa_s_demo.Go.Strings.Clean.{cut-append, trim_space-clean}
use kaa_s_demo.Prelude.Any.{any-append, any}
use kaa_s_demo.Go.Strings.{cut, trim_space, digits_from, is_space, unsigned, is_digit}
use mathlib.Core.List.{append-nil}
use kaa_s_demo.Prelude.{
  ◌≤◌, Bool, sym, leb, ap, ◌-◌, ◌%◌, true, ◌/◌, false, arith, ◌==◌, ltb, refl, ◌+◌, Bool-cases, ◌∙◌,
  ◌≡◌, ◌*◌, none, ◌<◌, some, Text, List, ℕ, [], ◌∷◌, ◌++◌, inl, inr,
}
use kaa_s_demo.Go.Decimal.{decimal, decimal_units, decimal_tens, decimal_hundreds}
use kaa_s_demo.NetPool.Ip.{
  size, IpNet, masked, show_net, parse_cidr, octets, octet_digit, parse_ip, show_ip,
}

first_digit :
    (done : List ℕ) (d : ℕ) (cs : Text)
    → d < 10
    → octets done none ((48 + d) ∷ cs) ≡ octets done (some d) cs
unfolding octets octet_digit
first_digit done d cs h =
    let no_dot : (48 + d == b'.') ≡ false = ground arith in
    let digit : is_digit (48 + d) ≡ true = ground arith in
    let value : 48 + d - 48 ≡ d = omega arith in simp (no_dot, digit, value)

next_digit :
    (done : List ℕ) (v d : ℕ) (cs : Text)
    → d < 10
    → 0 < v
    → v * 10 + d < 256
    → octets done (some v) ((48 + d) ∷ cs) ≡ octets done (some (v * 10 + d)) cs
unfolding octets octet_digit
next_digit done v d cs h h' h'' =
    let no_dot : (48 + d == b'.') ≡ false = ground arith in
    let digit : is_digit (48 + d) ≡ true = ground arith in
    let value : 48 + d - 48 ≡ d = omega arith in
    let leading : (v == 0) ≡ false = ground arith in
    let fits : leb (v * 10 + d) 255 ≡ true = ground arith in
    simp (no_dot, digit, value, leading, fits)

-- the digits of one octet
read_octet :
    (done : List ℕ) (a : ℕ) (cs : Text)
    → a < 256
    → octets done none (decimal a ++ cs) ≡ octets done (some a) cs
read_octet done a cs h = elim (Bool-cases (ltb a 10)) [
  | inl units ↦ rw (decimal_units a (ground arith)) (first_digit done a cs (ground arith))
  | inr more ↦ elim (Bool-cases (ltb a 100)) [
    | inl tens ↦
        let e : a / 10 * 10 + a % 10 ≡ a = omega arith in
        rw (decimal_tens a (ground arith) (ground arith)) (
          first_digit done (a / 10) ((48 + a % 10) ∷ cs) (ground arith)
          ∙ next_digit done (a / 10) (a % 10) cs (omega arith) (ground arith) (omega arith)
          ∙ ap (λ (v : ℕ). octets done (some v) cs) e)
    | inr hundreds ↦
        let e : a / 100 * 10 + a / 10 % 10 ≡ a / 10 = omega arith in
        let e' : (a / 100 * 10 + a / 10 % 10) * 10 + a % 10 ≡ a = omega arith in
        rw (decimal_hundreds a (ground arith) (omega arith)) (
          first_digit done (a / 100) ((48 + a / 10 % 10) ∷ (48 + a % 10) ∷ cs) (omega arith)
          ∙ next_digit done (a / 100) (a / 10 % 10) ((48 + a % 10) ∷ cs) (omega arith)
              (ground arith) (omega arith)
          ∙ next_digit done (a / 100 * 10 + a / 10 % 10) (a % 10) cs (omega arith) (ground arith)
              (omega arith)
          ∙ ap (λ (v : ℕ). octets done (some v) cs) e')
  ]
]

next_octet :
    (done : List ℕ) (v : ℕ) (cs : Text)
    → octets done (some v) (b'.' ∷ cs) ≡ octets (done ++ v ∷ []) none cs
unfolding octets
next_octet done v cs = refl

last_octet : (done : List ℕ) (v : ℕ) → octets done (some v) [] ≡ some (done ++ v ∷ [])
unfolding octets
last_octet done v = refl

octets-dotted :
    (a b c d : ℕ)
    → a < 256
    → b < 256
    → c < 256
    → d < 256
    → octets [] none (decimal a ++ b'.' ∷ (decimal b ++ b'.' ∷ (decimal c ++ b'.' ∷ decimal d)))
      ≡ some (a ∷ b ∷ c ∷ d ∷ [])
octets-dotted a b c d ha hb hc hd =
    read_octet [] a (b'.' ∷ (decimal b ++ b'.' ∷ (decimal c ++ b'.' ∷ decimal d))) ha
    ∙ next_octet [] a (decimal b ++ b'.' ∷ (decimal c ++ b'.' ∷ decimal d))
    ∙ read_octet (a ∷ []) b (b'.' ∷ (decimal c ++ b'.' ∷ decimal d)) hb
    ∙ next_octet (a ∷ []) b (decimal c ++ b'.' ∷ decimal d)
    ∙ read_octet (a ∷ b ∷ []) c (b'.' ∷ decimal d) hc
    ∙ next_octet (a ∷ b ∷ []) c (decimal d)
    ∙ sym (ap (octets (a ∷ b ∷ c ∷ []) none) (append-nil (decimal d)))
    ∙ read_octet (a ∷ b ∷ c ∷ []) d [] hd
    ∙ last_octet (a ∷ b ∷ c ∷ []) d

-- An address reads back from its text.
pub parse_ip-show_ip : (x : ℕ) → x < 4294967296 → parse_ip (show_ip x) ≡ some x
unfolding parse_ip show_ip
parse_ip-show_ip x h = simp (parse_ip, dotted, value)
  where
    value :
        x / 16777216 % 256 * 16777216 + x / 65536 % 256 * 65536 + x / 256 % 256 * 256 + x % 256 ≡ x
    value = omega arith

    dotted :
        octets [] none (show_ip x)
        ≡ some (x / 16777216 % 256 ∷ x / 65536 % 256 ∷ x / 256 % 256 ∷ x % 256 ∷ [])
    dotted =
        octets-dotted (x / 16777216 % 256) (x / 65536 % 256) (x / 256 % 256) (x % 256) (omega arith)
          (omega arith) (omega arith) (omega arith)

-- the characters of a number's text
digit_chars :
    (p : ℕ → Bool)
    → ((d : ℕ) → d < 10 → p (48 + d) ≡ false)
    → (a : ℕ) → a < 256
    → any p (decimal a) ≡ false
unfolding any
digit_chars p clean a h = elim (Bool-cases (ltb a 10)) [
  | inl units ↦ rw (decimal_units a (ground arith)) (ground (arith, clean a (ground arith)))
  | inr more ↦ elim (Bool-cases (ltb a 100)) [
    | inl tens ↦
        rw (decimal_tens a (ground arith) (ground arith))
          (ground (arith, clean (a / 10) (ground arith), clean (a % 10) (omega arith)))
    | inr hundreds ↦ rw (decimal_hundreds a (ground arith) (omega arith)) (
        ground (
          arith,
          clean (a / 100) (omega arith),
          clean (a / 10 % 10) (omega arith),
          clean (a % 10) (omega arith),
        ))
  ]
]

dotted_chars :
    (p : ℕ → Bool) (a : ℕ) (rest : Text)
    → any p (decimal a) ≡ false
    → p b'.' ≡ false
    → any p rest ≡ false
    → any p (decimal a ++ b'.' ∷ rest) ≡ false
unfolding any
dotted_chars p a rest h dot h' = any-append p (decimal a) (b'.' ∷ rest) ∙ simp (h, dot, h')

-- A character that is neither a digit nor a dot does not stand in an address.
pub show_ip-clean :
    (p : ℕ → Bool)
    → ((d : ℕ) → d < 10 → p (48 + d) ≡ false)
    → p b'.' ≡ false
    → (x : ℕ) → any p (show_ip x) ≡ false
unfolding show_ip
show_ip-clean p clean dot x =
    dotted_chars p (x / 16777216 % 256)
      (decimal (x / 65536 % 256) ++ b'.' ∷ (decimal (x / 256 % 256) ++ b'.' ∷ decimal (x % 256)))
      (number (x / 16777216)) dot
      (dotted_chars p (x / 65536 % 256) (decimal (x / 256 % 256) ++ b'.' ∷ decimal (x % 256))
        (number (x / 65536)) dot
        (dotted_chars p (x / 256 % 256) (decimal (x % 256)) (number (x / 256)) dot (number x)))
  where
    number : (y : ℕ) → any p (decimal (y % 256)) ≡ false
    number y = digit_chars p clean (y % 256) (omega arith)

-- Trimming an address's text changes nothing.
pub trim_space-show_ip : (x : ℕ) → trim_space (show_ip x) ≡ show_ip x
unfolding is_space
trim_space-show_ip x =
    trim_space-clean (show_ip x) (show_ip-clean is_space (λ d h. ground arith) refl x)

unsigned-decimal : (n : ℕ) → n < 100 → unsigned (decimal n) ≡ some n
unfolding unsigned digits_from
unsigned-decimal n h = elim (Bool-cases (ltb n 10)) [
  | inl units ↦ rw (decimal_units n (ground arith)) (ground arith)
  | inr tens ↦ rw (decimal_tens n (ground arith) (ground arith)) (ground arith)
]

-- A network whose host bits are 0 reads back from its text.
pub parse_cidr-show_net :
    (n : IpNet)
    → n.ip < 4294967296
    → n.ones ≤ 32
    → n.ip % size n.ones ≡ 0
    → parse_cidr (show_net n) ≡ some n
unfolding parse_cidr show_net masked
parse_cidr-show_net n h h' h'' =
    simp (parse_cidr, parts, parse_ip-show_ip n.ip h, mask, bounded, h'', untouched)
  where
    parts : cut b'/' (show_net n) ≡ some (show_ip n.ip, decimal n.ones)
    parts =
        cut-append b'/' (show_ip n.ip) (decimal n.ones)
          (show_ip-clean (λ c. c == b'/') (λ d h. ground arith) refl n.ip)

    mask : unsigned (decimal n.ones) ≡ some n.ones
    mask = unsigned-decimal n.ones (omega arith)

    untouched : n.ip - 0 ≡ n.ip
    untouched = omega arith

    bounded : leb n.ones 32 ≡ true
    bounded = ground arith
