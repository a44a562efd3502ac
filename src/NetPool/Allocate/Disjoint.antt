-- ===== src/NetPool/Allocate/Disjoint.antt =====
-- internal/netpool/netpool.go: Allocate keeps the networks of the clusters apart.
use kaa_s_demo.NetPool.Ip.RoundTrip.{parse_cidr-show_net}
use kaa_s_demo.Go.Strings.{trim_space}
use kaa_s_demo.Domain.Cluster.{Cluster}
use mathlib.Core.Path.{subst}
use kaa_s_demo.Prelude.{
  ◌≢◌, ◌∙◌, if◌then◌else◌, ap, none, true, ◌⊎◌, sym, text_eq, refl, Option-cases, Bool-cases, false,
  some, get_elem?, ◌≡◌, Text, ℕ, List, inl, inr, [], ◌∷◌, zero, suc,
}
use kaa_s_demo.NetPool.Ip.{IpNet, show_net, parse_cidr}
use kaa_s_demo.NetPool.Allocate.{
  validate_requested, auto_allocate, ◌>>=◌, Error, has_no_network, Env, allocate, used_nets,
  reserved_nets, ok, err, Result,
}
use kaa_s_demo.NetPool.Allocate.Clear.{
  validate_requested-IsAdmitted, auto_allocate-IsAdmitted, IsAdmitted, Apart,
}

used_nets-skip :
    (d : Cluster) (cs : List Cluster) → has_no_network d ≡ true → used_nets (d ∷ cs) ≡ used_nets cs
unfolding used_nets
used_nets-skip d cs gone = simp (gone)

used_nets-bad :
    (d : Cluster) (cs : List Cluster)
    → has_no_network d ≡ false
    → parse_cidr d.network_cidr ≡ none
    → used_nets (d ∷ cs) ≡ used_nets cs
unfolding used_nets
used_nets-bad d cs there bad = simp (there, bad)

used_nets-cons :
    (d : Cluster) (cs : List Cluster) (q : IpNet)
    → has_no_network d ≡ false
    → parse_cidr d.network_cidr ≡ some q
    → used_nets (d ∷ cs) ≡ q ∷ used_nets cs
unfolding used_nets
used_nets-cons d cs q there good = simp (there, good)

-- A cluster with a network that is not deleted counts among the used networks.
pub used_nets-has :
    (cs : List Cluster) (i : ℕ) (c : Cluster) (o : IpNet)
    → get_elem? cs i ≡ some c
    → has_no_network c ≡ false
    → parse_cidr c.network_cidr ≡ some o
    → (j : ℕ) × (get_elem? (used_nets cs) j ≡ some o)
used_nets-has [] i c o e live parsed = cc
used_nets-has (d ∷ cs) zero c o e live parsed =
    (0, ap (λ (ns : List IpNet). get_elem? ns 0) (used_nets-cons d cs o live' parsed'))
  where
    d≡c : d ≡ c
    d≡c = cc

    live' : has_no_network d ≡ false
    live' = subst (λ (q : Cluster). has_no_network q ≡ false) (sym d≡c) live

    parsed' : parse_cidr d.network_cidr ≡ some o
    parsed' = subst (λ (q : Cluster). parse_cidr q.network_cidr ≡ some o) (sym d≡c) parsed
used_nets-has (d ∷ cs) (suc i) c o e live parsed =
    let (j, found_later) = used_nets-has cs i c o e live parsed in
    elim (Bool-cases (has_no_network d)) [
      | inl gone ↦
          (j, ap (λ (ns : List IpNet). get_elem? ns j) (used_nets-skip d cs gone) ∙ found_later)
      | inr there ↦ elim (Option-cases (parse_cidr d.network_cidr)) [
        | inl bad ↦ (
          j,
          ap (λ (ns : List IpNet). get_elem? ns j) (used_nets-bad d cs there bad) ∙ found_later,
        )
        | inr (q, good) ↦ (
          suc j,
          ap (λ (ns : List IpNet). get_elem? ns (suc j)) (used_nets-cons d cs q there good)
              ∙ found_later,
        )
      ]
    ]

Result-cases : {A : Type 0} (r : Result A) → ((a : A) × (r ≡ ok a)) ⊎ ((e : Error) × (r ≡ err e))
Result-cases (ok a) = inl (a, refl)
Result-cases (err e) = inr (e, refl)

-- the choice of the network
abbrev pick : Env → Text → List IpNet → List IpNet → Result IpNet
pick env requested reserved used =
    if text_eq (trim_space requested) []
    then auto_allocate env reserved used
    else validate_requested requested reserved used

allocate-pick :
    (env : Env) (existing : List Cluster) (requested : Text) (reserved : List IpNet)
    → reserved_nets env ≡ ok reserved
    → allocate env existing requested
      ≡ (pick env requested reserved (used_nets existing) >>= λ n. ok (show_net n))
unfolding allocate
allocate-pick env existing requested reserved r = simp (r)

pick-IsAdmitted :
    (env : Env) (requested : Text) (reserved used : List IpNet) (n : IpNet)
    → pick env requested reserved used ≡ ok n
    → IsAdmitted reserved used n
pick-IsAdmitted env requested reserved used n h =
    elim (Bool-cases (text_eq (trim_space requested) [])) [
      | inl empty ↦ auto_allocate-IsAdmitted env reserved used n (sym (simp (empty)) ∙ h)
      | inr given ↦ validate_requested-IsAdmitted requested reserved used n (sym (simp (given)) ∙ h)
    ]

-- Allocate gives the text of a network, which reads back, and which shares no address with a reserved
-- network, nor with the network of any cluster that is not deleted and whose network's text parses.
pub allocate-IsClear :
    (env : Env) (existing : List Cluster) (requested text : Text)
    → allocate env existing requested ≡ ok text
    → (n : IpNet) × (reserved : List IpNet) × (parse_cidr text ≡ some n)
      × (reserved_nets env ≡ ok reserved)
      × ((i : ℕ) (o : IpNet) → get_elem? reserved i ≡ some o → Apart n o)
      × ((i : ℕ) (c : Cluster) (o : IpNet)
          → get_elem? existing i ≡ some c
          → has_no_network c ≡ false
          → parse_cidr c.network_cidr ≡ some o
          → Apart n o)
unfolding allocate
allocate-IsClear env existing requested text h = elim (Result-cases (reserved_nets env)) [
  | inr (x, bad) ↦ let no : err x ≡ ok text = sym (simp (allocate, bad)) ∙ h in cc
  | inl (reserved, r) ↦ elim (Result-cases (pick env requested reserved (used_nets existing))) [
    | inr (x, bad) ↦
        let no : err x ≡ ok text =
          sym (allocate-pick env existing requested reserved r ∙ simp (bad)) ∙ h in
        cc
    | inl (n, good) ↦
        let same : ok (show_net n) ≡ ok text =
          sym (allocate-pick env existing requested reserved r ∙ simp (good)) ∙ h in
        let e : show_net n ≡ text = cc in
        let ((apart, apart'), net) =
          pick-IsAdmitted env requested reserved (used_nets existing) n good in
        (
          n,
          reserved,
          subst (λ (t : Text). parse_cidr t ≡ some n) e
              (parse_cidr-show_net n net.fits net.short net.aligned),
          r,
          apart,
          λ i c o g live parsed.
              let (j, e) = used_nets-has existing i c o g live parsed in apart' j o e,
        )
  ]
]

-- No two clusters of the list that are not deleted and have networks share an address.
unfoldable pub AllApart : List Cluster → Type 0
AllApart cs =
    (i j : ℕ) (c d : Cluster) (n o : IpNet)
    → i ≢ j
    → get_elem? cs i ≡ some c
    → get_elem? cs j ≡ some d
    → has_no_network c ≡ false
    → has_no_network d ≡ false
    → parse_cidr c.network_cidr ≡ some n
    → parse_cidr d.network_cidr ≡ some o
    → Apart n o

Apart-sym : (n o : IpNet) → Apart n o → Apart o n
unfolding Apart
Apart-sym n o h x ho hn = h x hn ho

-- the network of the new cluster and that of another one
new_disjoint :
    (env : Env) (existing : List Cluster) (requested : Text) (new c : Cluster) (i : ℕ) (n o : IpNet)
    → allocate env existing requested ≡ ok new.network_cidr
    → get_elem? existing i ≡ some c
    → has_no_network c ≡ false
    → parse_cidr new.network_cidr ≡ some n
    → parse_cidr c.network_cidr ≡ some o
    → Apart n o
new_disjoint env existing requested new c i n o h g live e e' =
    let (m, reserved, parsed, r, clear, apart) =
      allocate-IsClear env existing requested new.network_cidr h in
    let same : some m ≡ some n = sym parsed ∙ e in
    let m≡n : m ≡ n = cc in subst (λ (q : IpNet). Apart q o) m≡n (apart i c o g live e')

-- Adding a cluster with the network that Allocate gives for the present clusters keeps the networks
-- of all clusters apart.
pub allocate-AllApart :
    (env : Env) (existing : List Cluster) (requested : Text) (new : Cluster)
    → AllApart existing
    → allocate env existing requested ≡ ok new.network_cidr
    → AllApart (new ∷ existing)
unfolding AllApart
allocate-AllApart env existing requested new all h zero zero c d n o ne gi gj lc ld pc pd =
    absurd (ne refl)
allocate-AllApart env existing requested new all h zero (suc j) c d n o ne gi gj lc ld pc pd =
    let new≡c : new ≡ c = cc in
    new_disjoint env existing requested new d j n o h gj ld
      (subst (λ (q : Cluster). parse_cidr q.network_cidr ≡ some n) (sym new≡c) pc) pd
allocate-AllApart env existing requested new all h (suc i) zero c d n o ne gi gj lc ld pc pd =
    let new≡d : new ≡ d = cc in
    Apart-sym o n (
      new_disjoint env existing requested new c i o n h gi lc
        (subst (λ (q : Cluster). parse_cidr q.network_cidr ≡ some o) (sym new≡d) pd) pc)
allocate-AllApart env existing requested new all h (suc i) (suc j) c d n o ne gi gj lc ld pc pd =
    all i j c d n o (λ e. ne (ap suc e)) gi gj lc ld pc pd
