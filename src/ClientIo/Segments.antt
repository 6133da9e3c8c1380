-- ===== src/ClientIo/Segments.antt =====
-- libsocket/ClientIOSocket.cpp: a byte stream that arrives in any chunks.
use echo_server_cpp.Prelude.{
  concat, ℕ, ◌≤◌, ◌<◌, ◌≡◌, ◌^◌, refl, sym, ap, ◌∙◌, inl, inr, Bool, some, List, [], ◌∷◌, ◌++◌,
  append_assoc, append-nil, arith, length, take, drop, length-append, take-append, take-append-drop,
  drop-append, drop-append_le, take-append_le, dec_lt,
}
use echo_server_cpp.Protocol.{ProtocolHead}
use echo_server_cpp.Protocol.RoundTrip.{head_bytes, length-head_bytes}
use echo_server_cpp.ClientIo.{feed}
use echo_server_cpp.ClientIo.Framing.{
  AllPackets, IsPartial, recv-packets, length-packet, head_unique,
}

front_split :
    (a b x y : List ℕ) → a ++ b ≡ x ++ y → length x ≤ length a → a ≡ x ++ drop (length x) a
front_split a b x y e le =
    sym (take-append-drop (length x) a)
    ∙ ap (λ (t : List ℕ). t ++ drop (length x) a)
        (sym (take-append_le (length x) a b le) ∙ ap (take (length x)) e ∙ take-append x y)

back_split : (a b x y : List ℕ) → a ++ b ≡ x ++ y → length x ≤ length a → drop (length x) a ++ b ≡ y
back_split a b x y e le =
    sym (drop-append_le (length x) a b le) ∙ ap (drop (length x)) e ∙ drop-append x y

-- What ends before the packet that a head announces is the start of a packet.
cut-IsPartial :
    (h : ProtocolHead) (a b ys : List ℕ)
    → a ++ b ≡ head_bytes h ++ ys
    → length a < h.len
    → h.len < 2 ^ 16
    → h.xyid < 2 ^ 16
    → IsPartial a
cut-IsPartial h a b ys e less x y = elim (dec_lt (length a) 4) [
  | yes short ↦ inl short
  | no long ↦ inr (
    h,
    drop (length (head_bytes h)) a,
    front_split a b (head_bytes h) ys e (omega (arith, length-head_bytes h)),
    less,
    x,
    y,
  )
]

prefix-IsPartial : (a b r : List ℕ) → IsPartial r → r ≡ a ++ b → IsPartial a
prefix-IsPartial a b r (inl short) e = inl (omega (arith, ap length e, length-append a b))
prefix-IsPartial a b r (inr (h, body, f, less, x, y)) e =
    cut-IsPartial h a b body (sym e ∙ f) (omega (arith, ap length e, length-append a b)) x y

abbrev Split : List (List ℕ) → List ℕ → List ℕ → List ℕ → Type 0
Split ps r a b =
    (qs : List (List ℕ)) × (ps' : List (List ℕ)) × (s : List ℕ) × (ps ≡ qs ++ ps')
    × (a ≡ concat qs ++ s)
    × (s ++ b ≡ concat ps' ++ r)
    × IsPartial s
    × AllPackets qs
    × AllPackets ps'

-- Any front of a stream is made of packets and the start of one.
split :
    (ps : List (List ℕ)) (r a b : List ℕ)
    → AllPackets ps
    → IsPartial r
    → a ++ b ≡ concat ps ++ r
    → Split ps r a b
split [] r a b k t e = ([], [], a, refl, refl, e, prefix-IsPartial a b r t (sym e), tt, tt)
split (p ∷ ps) r a b k t e =
    let f : a ++ b ≡ p ++ (concat ps ++ r) = e ∙ append_assoc p (concat ps) r in
    elim (dec_lt (length a) (length p)) [
      | yes less ↦
          let h = k.0.head in
          (
            [],
            p ∷ ps,
            a,
            refl,
            refl,
            e,
            cut-IsPartial h a b (k.0.body ++ (concat ps ++ r))
                (f
                  ∙ ap (λ (u : List ℕ). u ++ (concat ps ++ r)) k.0.shape
                  ∙ append_assoc (head_bytes h) k.0.body _)
                (omega (arith, k.0.counts)) k.0.len_fits k.0.xyid_fits,
            tt,
            k,
          )
      | no more ↦
          let (qs, ps', s, e₁, e₂, e₃, q, k₁, k₂) =
            split ps r (drop (length p) a) b k.1 t
              (back_split a b p (concat ps ++ r) f (omega arith)) in
          (
            p ∷ qs,
            ps',
            s,
            ap (◌∷◌ p) e₁,
            front_split a b p (concat ps ++ r) f (omega arith)
                ∙ ap (◌++◌ p) e₂
                ∙ sym (append_assoc p (concat qs) s),
            e₃,
            q,
            (k.0, k₁),
            k₂,
          )
    ]

-- The start of a packet holds no whole packet.
whole-IsPartial :
    (ps : List (List ℕ)) (r kept : List ℕ)
    → AllPackets ps
    → IsPartial kept
    → kept ≡ concat ps ++ r
    → (ps ≡ []) × (kept ≡ r)
whole-IsPartial [] r kept k u e = (refl, e)
whole-IsPartial (p ∷ ps) r kept k (inl short) e = absurd (
    omega (
      arith,
      ap length (e ∙ append_assoc p (concat ps) r),
      length-append p (concat ps ++ r),
      length-packet k.0,
    ))
whole-IsPartial (p ∷ ps) r kept k (inr (h, body, f, less, x, y)) e =
    let j = k.0.head in
    let g : kept ≡ p ++ (concat ps ++ r) = e ∙ append_assoc p (concat ps) r in
    let q =
      g
      ∙ ap (λ (u : List ℕ). u ++ (concat ps ++ r)) k.0.shape
      ∙ append_assoc (head_bytes j) k.0.body _ in
    let same =
      head_unique h j body (k.0.body ++ (concat ps ++ r)) (sym f ∙ q) x y k.0.len_fits
        k.0.xyid_fits in
    absurd (
      omega (
        arith,
        ap (λ (t : ProtocolHead). t.len) same,
        ap length g,
        length-append p (concat ps ++ r),
        k.0.counts,
      ))

-- A stream of packets, followed by the start of one more, in any chunks, the first of them behind the
-- start of a packet that was kept: with more fuel than packets the reads together hand up exactly the
-- packets, in order, and keep the start, on any host.
pub feed-packets :
    (host : Bool) (fuel : ℕ) (kept : List ℕ) (chunks : List (List ℕ)) (ps : List (List ℕ))
    (r : List ℕ)
    → AllPackets ps
    → IsPartial r
    → IsPartial kept
    → kept ++ concat chunks ≡ concat ps ++ r
    → length ps < fuel
    → feed host fuel kept chunks ≡ some (ps, r)
unfolding feed
feed-packets host fuel kept [] ps r k t u e f =
    let (m, n) = whole-IsPartial ps r kept k u (sym (append-nil kept) ∙ e) in rw (m, n)
feed-packets host fuel kept (c ∷ cs) ps r k t u e f =
    let (qs, ps', s, e₁, e₂, e₃, q, k₁, k₂) =
      split ps r (kept ++ c) (concat cs) k t (append_assoc kept c (concat cs) ∙ e) in
    let n = ap length e₁ in
    rw (
      feed,
      recv-packets host fuel kept c qs s k₁ q e₂ (omega (arith, n, length-append qs ps')),
      feed-packets host fuel s cs ps' r k₂ t q e₃ (omega (arith, n, length-append qs ps')),
      e₁,
    )
