-- ===== src/K8s/Names.antt =====
-- The names of the pools of dumbarp-k8s/src/reconcile.rs.
use dumbarp.Common.{ℕ, ◌≡◌, refl, false, [], ◌∷◌, ◌++◌, ◌==◌, nat_eq, arith, All, All-append}
use mathlib.Core.Path.{ap}
use dumbarp.Text.{Text}
use dumbarp.Text.Addr.{show_octet, show_addr, address}
use dumbarp.Api.Responses.{IsIp, ip_text, parse_ip, parse_ip-ip_text}
use dumbarp.K8s.{replace, pool_name}

-- The hyphens of a name can be turned back into dots, for no address has a hyphen.
abbrev NoHyphen : Text → Type 0
NoHyphen t = All (λ (c : ℕ). (c == 45) ≡ false) t

replace_back : (t : Text) → NoHyphen t → replace 45 46 (replace 46 45 t) ≡ t
replace_back [] h = refl
replace_back (c ∷ t) h = ground (arith, replace_back t h.1)

NoHyphen-append : (s t : Text) → NoHyphen s → NoHyphen t → NoHyphen (s ++ t)
NoHyphen-append s t hs ht = All-append (λ (c : ℕ). (c == 45) ≡ false) s t hs ht

show_octet-NoHyphen : (n : ℕ) → NoHyphen (show_octet n)
unfolding show_octet
show_octet-NoHyphen n = ground arith

show_addr-NoHyphen : (ip : ℕ) → NoHyphen (ip_text ip)
unfolding show_addr
show_addr-NoHyphen ip =
    let a = address ip in
    NoHyphen-append (show_octet a.q0) _ (show_octet-NoHyphen a.q0) (
      refl,
      NoHyphen-append (show_octet a.q1) _ (show_octet-NoHyphen a.q1) (
        refl,
        NoHyphen-append (show_octet a.q2) _ (show_octet-NoHyphen a.q2)
            (refl, show_octet-NoHyphen a.q3),
      ),
    )

abbrev tail_of : Text → Text
tail_of [] = []
tail_of (c ∷ t) = t

-- Different addresses have pools of different names.
pub pool_name-injective : (i j : ℕ) → IsIp i → IsIp j → pool_name i ≡ pool_name j → i ≡ j
unfolding pool_name
pool_name-injective i j hi hj e =
    let rest : Text → Text =
      λ t. tail_of (tail_of (tail_of (tail_of (tail_of (tail_of (tail_of (tail_of t))))))) in
    let same : replace 46 45 (ip_text i) ≡ replace 46 45 (ip_text j) = ap rest e in
    let texts : ip_text i ≡ ip_text j =
      rw
        (
          replace_back (ip_text i) (show_addr-NoHyphen i),
          replace_back (ip_text j) (show_addr-NoHyphen j),
        )
        at (ap (replace 45 46) same) in
    let read : parse_ip (ip_text i) ≡ parse_ip (ip_text j) = ap parse_ip texts in
    ground (arith, read, parse_ip-ip_text i hi, parse_ip-ip_text j hj)
