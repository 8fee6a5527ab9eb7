-- ===== src/Idns/Spf/Lookups.antt =====
-- The counter of the lookups, and that the evaluation ends.
use npm.Common.{
  ℕ, zero, suc, ◌+◌, ◌%◌, ◌^◌, ◌≤◌, ◌<◌, ◌≡◌, ◌⊎◌, inl, inr, refl, sym, arith, Bool, true, false,
  Option, none, some, List, [], ◌∷◌, take, ltb, if◌then◌else◌, Bool-cases,
}
use mathlib.Core.Path.{subst}
use npm.Text.{Text}
use npm.Idns.Address.{IpAddr}
use npm.Idns.Records.{Lookup, records, nothing, error, Mx}
use npm.Idns.Spf.{Status, Act, Host, HostKind, Spf, status_of}
use npm.Idns.Spf.Check.{
  Counting, ◌>>=◌, return, inc_lookup, max_lookups, max_mx, DnsResult, matched, no_match, failed,
  Resolver, Verdict, stop, go_on, redirect_to, include_verdict, dns_verdict, redirect_status,
  all_status, is_settled, check, host_match, mx_loop, mx_records, mx_match, counted, host_step,
  finish, eval_hosts, eval, eval_records, check_host, width, or_pass, verify_counting, verify,
}

-- From a counter up to the limit: the operation returns, the counter does not fall, and it is up to
-- the limit again, or one above it and the result says so.
abbrev Counts : {A : Type 0} → (A → Type 0) → ℕ → Option (A × ℕ) → Type 0
Counts {A} Over n o =
    (a : A) × (k : ℕ) × (o ≡ some (a, k))
    × (n ≤ k)
    × ((k ≤ max_lookups) ⊎ ((k ≡ suc max_lookups) × Over a))

abbrev Bounded : {A : Type 0} → (A → Type 0) → ℕ → Counting A → Type 0
Bounded Over least m = (n : ℕ) → least ≤ n → n ≤ max_lookups → Counts Over n (m n)

return-Bounded :
    {A : Type 0} (Over : A → Type 0) (least : ℕ) (a : A) → Bounded Over least (return a)
return-Bounded Over least a n h k = (a, n, refl, omega arith, inl k)

bind-Bounded :
    {A B : Type 0} (Over : A → Type 0) (Over' : B → Type 0) (least : ℕ) (m : Counting A)
    (f : A → Counting B)
    → Bounded Over least m
    → ((a : A) → Bounded Over' least (f a))
    → ((a : A) → Over a → (b : B) × (f a (suc max_lookups) ≡ some (b, suc max_lookups)) × Over' b)
    → Bounded Over' least (m >>= f)
bind-Bounded Over Over' least m f hm hf ho n h k =
    let (a, i, e, l, c) = hm n h k in
    elim c [
      | inl fine ↦
          let (b, j, e', l', c') = hf a i (omega arith) fine in
          (b, j, rw (e, ◌>>=◌) e', omega arith, c')
      | inr (top, over) ↦
          let (b, e', over') = ho a over in
          (b, suc max_lookups, rw (e, ◌>>=◌) (rw top e'), omega arith, inr (refl, over'))
    ]

Bounded-suc :
    {A : Type 0} (Over : A → Type 0) (least : ℕ) (m : Counting A)
    → Bounded Over least m
    → Bounded Over (suc least) m
Bounded-suc Over least m h n k l = h n (omega arith) l

-- One more lookup, and the early return when there were too many.
inc_lookup-Bounded :
    {A : Type 0} (Over : A → Type 0) (least : ℕ) (x : A) (m : Counting A)
    → Over x
    → Bounded Over (suc least) m
    → Bounded Over least (inc_lookup >>= (λ over. if over then return x else m))
unfolding inc_lookup
inc_lookup-Bounded {A} Over least x m hx hm n h k =
    let e : (n + 1) % 2 ^ 8 ≡ suc n = omega arith in
    subst (λ c. Counts Over n ((if ltb max_lookups c then return x else m) c)) (sym e)
      (elim (Bool-cases (ltb max_lookups (suc n))) [
        | inl over ↦ rw over (x, suc n, refl, omega arith, inr (ground arith, hx))
        | inr fine ↦
            let (a, i, f, l, c) = hm (suc n) (omega arith) (ground arith) in
            rw fine (a, i, f, omega arith, c)
      ])

if-Bounded :
    {A : Type 0} (Over : A → Type 0) (least : ℕ) (b : Bool) (m n : Counting A)
    → Bounded Over least m
    → Bounded Over least n
    → Bounded Over least (if b then m else n)
if-Bounded Over least true m n hm hn = hm
if-Bounded Over least false m n hm hn = hn

abbrev IsPerm : Status → Type 0
IsPerm s = s ≡ Status.perm_error

abbrev StopsPerm : Verdict → Type 0
StopsPerm v = v ≡ stop Status.perm_error

abbrev IsFailed : DnsResult → Type 0
IsFailed r = r ≡ failed

module _ (q : Resolver) where
  mx_loop-Bounded :
      (bits : ℕ) (ip : IpAddr) (ms : List Mx) (least : ℕ)
      → Bounded IsFailed least (mx_loop q bits ip ms)
  unfolding mx_loop
  mx_loop-Bounded bits ip [] least = return-Bounded IsFailed least no_match
  mx_loop-Bounded bits ip (m ∷ ms) least =
      inc_lookup-Bounded IsFailed least failed _ refl
        (by_result (host_match q m.server bits ip) (mx_loop-Bounded bits ip ms (suc least)))
    where
      by_result :
          (r : DnsResult)
          → Bounded IsFailed (suc least) (mx_loop q bits ip ms)
          → Bounded IsFailed (suc least) (elim r [
            | matched ↦ return matched
            | failed ↦ return failed
            | no_match ↦ mx_loop q bits ip ms
          ])
      by_result matched rest = return-Bounded IsFailed (suc least) matched
      by_result failed rest = return-Bounded IsFailed (suc least) failed
      by_result no_match rest = rest

  mx_match-Bounded :
      (domain : Text) (bits : ℕ) (ip : IpAddr) (least : ℕ)
      → Bounded IsFailed least (mx_match q domain bits ip)
  unfolding mx_match
  mx_match-Bounded domain bits ip least = by_records (q.mx domain)
    where
      by_records : (l : Lookup Mx) → Bounded IsFailed least (mx_records q bits ip l)
      by_records (records li) = mx_loop-Bounded bits ip (take max_mx li) least
      by_records nothing = return-Bounded IsFailed least no_match
      by_records error = return-Bounded IsFailed least failed

  counted-Bounded :
      (least : ℕ) (m : Counting Verdict)
      → Bounded StopsPerm (suc least) m
      → Bounded StopsPerm least (counted q m)
  unfolding counted
  counted-Bounded least m h = inc_lookup-Bounded StopsPerm least (stop Status.perm_error) m refl h

  module _ (rec : Text → Counting Status) (least : ℕ)
      (hr : (d : Text) → Bounded IsPerm least (rec d)) where
    host_step-Bounded :
        (domain : Text) (ip : IpAddr) (act : Act) (kind : HostKind)
        → Bounded StopsPerm least (host_step q rec domain ip act kind)
    unfolding host_step include_verdict dns_verdict
    host_step-Bounded domain ip act (HostKind.include d) =
        bind-Bounded IsPerm StopsPerm least (rec d) _ (hr d)
          (λ r. return-Bounded StopsPerm least (include_verdict act r))
          (λ r e. (include_verdict act r, refl, rw e refl))
    host_step-Bounded domain ip act (HostKind.redirect d) =
        return-Bounded StopsPerm least (redirect_to d)
    host_step-Bounded domain ip act (HostKind.a d bits) =
        counted-Bounded least _ (return-Bounded StopsPerm (suc least) _)
    host_step-Bounded domain ip act (HostKind.mx d bits) = counted-Bounded least _ (
        bind-Bounded IsFailed StopsPerm (suc least) (mx_match q _ bits ip) _
          (mx_match-Bounded _ bits ip (suc least))
          (λ r. return-Bounded StopsPerm (suc least) (dns_verdict act Status.perm_error r))
          (λ r e. (dns_verdict act Status.perm_error r, refl, rw e refl)))
    host_step-Bounded domain ip act (HostKind.exists d) =
        counted-Bounded least _ (return-Bounded StopsPerm (suc least) _)

    finish-Bounded :
        (all : Option Act) (redirect : Option Text)
        → Bounded IsPerm least (finish q rec all redirect)
    unfolding finish redirect_status
    finish-Bounded all none = return-Bounded IsPerm least (all_status all)
    finish-Bounded all (some d) =
        bind-Bounded IsPerm IsPerm least (rec d) _ (hr d)
          (λ r. return-Bounded IsPerm least (redirect_status r))
          (λ r e. (redirect_status r, refl, rw e refl))

    verdict-Bounded :
        (v : Verdict) (rest : Counting Status) (on_redirect : Text → Counting Status)
        → Bounded IsPerm least rest
        → ((d : Text) → Bounded IsPerm least (on_redirect d))
        → Bounded IsPerm least
            (elim v [ stop status ↦ return status | go_on ↦ rest | redirect_to d ↦ on_redirect d ])
    verdict-Bounded (stop status) rest on_redirect h k = return-Bounded IsPerm least status
    verdict-Bounded go_on rest on_redirect h k = h
    verdict-Bounded (redirect_to d) rest on_redirect h k = k d

    eval_hosts-Bounded :
        (domain : Text) (ip : IpAddr) (all : Option Act) (redirect : Option Text) (hs : List Host)
        → Bounded IsPerm least (eval_hosts q rec domain ip all redirect hs)
    unfolding eval_hosts
    eval_hosts-Bounded domain ip all redirect [] = finish-Bounded all redirect
    eval_hosts-Bounded domain ip all redirect (h ∷ hs) =
        bind-Bounded StopsPerm IsPerm least (host_step q rec domain ip h.act h.kind) _
          (host_step-Bounded domain ip h.act h.kind)
          (λ v.
            verdict-Bounded v _ _ (eval_hosts-Bounded domain ip all redirect hs)
              (λ d. eval_hosts-Bounded domain ip all (some d) hs))
          (λ v e. (Status.perm_error, rw e refl, refl))

    eval-Bounded :
        (spf : Spf) (domain : Text) (ip : IpAddr) → Bounded IsPerm least (eval q rec spf domain ip)
    unfolding eval
    eval-Bounded spf domain ip = by_check (check spf ip)
      where
        by_check :
            (o : Option Act)
            → Bounded IsPerm least (elim o [
              | some act ↦ return (status_of act)
              | none ↦ eval_hosts q rec domain ip spf.all none spf.host
            ])
        by_check (some act) = return-Bounded IsPerm least (status_of act)
        by_check none = eval_hosts-Bounded domain ip spf.all none spf.host

    eval_records-Bounded :
        (domain : Text) (ip : IpAddr) (l : Lookup Spf)
        → Bounded IsPerm least (eval_records q rec domain ip l)
    unfolding eval_records
    eval_records-Bounded domain ip (records []) = return-Bounded IsPerm least Status.none
    eval_records-Bounded domain ip (records (spf ∷ [])) = eval-Bounded spf domain ip
    eval_records-Bounded domain ip (records (spf ∷ other ∷ li)) =
        return-Bounded IsPerm least Status.perm_error
    eval_records-Bounded domain ip nothing = return-Bounded IsPerm least Status.none
    eval_records-Bounded domain ip error = return-Bounded IsPerm least Status.temp_error

  check_host-Bounded :
      (fuel least : ℕ) (ip : IpAddr) (domain : Text)
      → max_lookups < fuel + least
      → Bounded IsPerm least (check_host q fuel ip domain)
  unfolding check_host
  check_host-Bounded zero least ip domain h = λ n k l. absurd (omega arith)
  check_host-Bounded (suc fuel) least ip domain h =
      inc_lookup-Bounded IsPerm least Status.perm_error _ refl (
        eval_records-Bounded (check_host q fuel ip) (suc least)
          (λ d. check_host-Bounded fuel (suc least) ip d (omega arith)) domain ip (q.spf domain))

  -- `verify` returns, whatever the resolver answers, with at most 17 lookups counted: the records
  -- that name one another end the evaluation, and the byte that counts does not wrap.
  pub verify_total :
      (domain : Text) (ip : IpAddr)
      → (s : Status) × (k : ℕ) × (verify q domain ip ≡ some (s, k)) × (k ≤ 17)
  unfolding verify verify_counting is_settled
  verify_total domain ip =
      let (s, k, e, l, c) =
        bind-Bounded IsPerm (λ t. Unit {0}) 0 (check_host q 17 ip domain) _
          (check_host-Bounded 17 0 ip domain (omega arith))
          (λ r.
            if-Bounded (λ t. Unit {0}) 0 (is_settled r) _ _ (return-Bounded (λ t. Unit {0}) 0 r)
              (bind-Bounded IsFailed (λ t. Unit {0}) 0 (mx_match q domain (width q ip) ip) _
                (mx_match-Bounded domain (width q ip) ip 0)
                (λ m. return-Bounded (λ t. Unit {0}) 0 (or_pass q r m))
                (λ m e. (or_pass q r m, refl, tt))))
          (λ r e. (Status.perm_error, rw e refl, tt)) 0 (omega arith) (omega arith) in
      (s, k, e, elim c [ inl h ↦ omega arith | inr h ↦ omega arith ])
