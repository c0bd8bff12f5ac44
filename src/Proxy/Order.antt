-- ===== src/Proxy/Order.antt =====
-- The list that services try in order.
use nyyu_market.Prelude.{
  List, [], ◌∷◌, Bool, not, ◌≡◌, ◌≢◌, ◌↔◌, inl, inr, refl, sym, ◌∙◌, All, arith, Bool-cases,
}
use nyyu_market.Prelude.Text.{Bytes, bytes_eq}
use nyyu_market.Prelude.Maps.{bytes_eq_iff}
use nyyu_market.Prelude.Choice.{AnyOf}
use nyyu_market.Proxy.{ProxyService, filter, working_first, get_proxy_list_with_working_first}

-- The proxy stands in the list.
abbrev pub Within : Bytes → List Bytes → Type 0
Within p = AnyOf (λ q. q ≡ p)

pub filter-All {ℓ} :
    (P : Bytes → Type ℓ) (test : Bytes → Bool) (ps : List Bytes) → All P ps → All P (filter test ps)
unfolding filter
filter-All P test [] h = tt
filter-All P test (p ∷ ps) h = elim (Bool-cases (test p)) [
  | inl e ↦ rw e (h.0, filter-All P test ps h.1)
  | inr n ↦ rw n (filter-All P test ps h.1)
]

filter-Within :
    (p w : Bytes) (ps : List Bytes)
    → p ≢ w
    → Within p (filter (λ q. not (bytes_eq q w)) ps) ↔ Within p ps
unfolding filter
filter-Within p w [] h = (λ k. k, λ k. k)
filter-Within p w (q ∷ ps) h =
    let (down, up) = filter-Within p w ps h in
    elim (Bool-cases (bytes_eq q w)) [
      | inl e ↦ rw e (
        λ k. inr (down k),
        elim [ inl s ↦ absurd (h (sym s ∙ (bytes_eq_iff q w).0 e)) | inr k ↦ up k ],
      )
      | inr n ↦ rw n (
        elim [ inl s ↦ inl s | inr k ↦ inr (down k) ],
        elim [ inl s ↦ inl s | inr k ↦ inr (up k) ],
      )
    ]

filter-ne : (w : Bytes) (ps : List Bytes) → All (λ q. q ≢ w) (filter (λ q. not (bytes_eq q w)) ps)
unfolding filter
filter-ne w [] = tt
filter-ne w (q ∷ ps) = elim (Bool-cases (bytes_eq q w)) [
  | inl e ↦ rw e (filter-ne w ps)
  | inr n ↦ rw n (λ s. absurd (ground (arith, (bytes_eq_iff q w).1 s)), filter-ne w ps)
]

-- What follows the working proxy: the other proxies of the list, and no others.
abbrev pub IsRest : Bytes → List Bytes → List Bytes → Type 0
IsRest w list rest = All (λ q. q ≢ w) rest × ((p : Bytes) → p ≢ w → Within p rest ↔ Within p list)

-- If a proxy is known to work, `GetProxyListWithWorkingFirst` begins with it; it does not stand there
-- again, and the proxies that follow are those of the list but for it.
pub get_proxy_list_with_working_first-IsRest :
    (st : ProxyService)
    → st.working_proxy ≢ []
    → (rest : List Bytes) × (get_proxy_list_with_working_first st ≡ st.working_proxy ∷ rest)
      × IsRest st.working_proxy st.proxy_list rest
unfolding get_proxy_list_with_working_first
get_proxy_list_with_working_first-IsRest st h = begins st.working_proxy h
  where
    begins :
        (w : Bytes)
        → w ≢ []
        → (rest : List Bytes) × (working_first w st.proxy_list ≡ w ∷ rest)
          × IsRest w st.proxy_list rest
    begins [] k = absurd (k refl)
    begins (c ∷ w) k = (
      filter (λ q. not (bytes_eq q (c ∷ w))) st.proxy_list,
      refl,
      (filter-ne (c ∷ w) st.proxy_list, λ p n. filter-Within p (c ∷ w) st.proxy_list n),
    )
