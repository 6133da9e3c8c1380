-- ===== src/FreeQueue/Chain.antt =====
-- include/base/FreeQueue.h: the nodes that follow each other from a link on.
use echo_server_cpp.Prelude.{
  ℕ, ◌≡◌, refl, ◌∙◌, true, false, Option, none, some, List, [], ◌∷◌, ◌++◌, arith, ◌==◌,
}
use echo_server_cpp.Prelude.Assoc.{lookup, update, erase, lookup-update, lookup-erase}
use echo_server_cpp.FreeQueue.{Node}

pub apart : (a p : ℕ) → (a == p) ≡ false → (p == a) ≡ false
apart a p h = ground arith

module _ {ℓ} {A : Type ℓ} where
  abbrev pub node : A → Option ℕ → Node A
  node x link = record { value = x; next = link }

  -- From the link on, the nodes at these addresses have these values, and the last one has no next.
  abbrev pub Chain : List (ℕ × Node A) → Option ℕ → List (ℕ × A) → Type ℓ
  Chain nodes link [] = (link ≡ none) × Unit {ℓ}
  Chain nodes link ((p, x) ∷ cells) =
      (link ≡ some p)
      × ((next : Option ℕ) × (lookup p nodes ≡ some (node x next)) × Chain nodes next cells)

  -- No node of these stands at the address.
  abbrev pub Away : ℕ → List (ℕ × A) → Type 0
  Away p [] = Unit {0}
  Away p ((a, x) ∷ cells) = ((a == p) ≡ false) × Away p cells

  abbrev pub Distinct : List (ℕ × A) → Type 0
  Distinct [] = Unit {0}
  Distinct ((a, x) ∷ cells) = Away a cells × Distinct cells

  abbrev pub last_of : ℕ → List (ℕ × A) → ℕ
  last_of h [] = h
  last_of h ((p, x) ∷ cells) = last_of p cells

  pub Away-last :
      (p a : ℕ) (x : A) (cells : List (ℕ × A))
      → Away p ((a, x) ∷ cells)
      → (last_of a cells == p) ≡ false
  Away-last p a x [] h = h.0
  Away-last p a x ((b, y) ∷ cells) h = Away-last p b y cells h.1

  pub Chain-update :
      (nodes : List (ℕ × Node A)) (link : Option ℕ) (cells : List (ℕ × A)) (p : ℕ) (n : Node A)
      → Away p cells
      → Chain nodes link cells
      → Chain (update p n nodes) link cells
  Chain-update nodes link [] p n h c = c
  Chain-update nodes link ((a, x) ∷ cells) p n h (e, (next, f, c)) =
      let b = apart a p h.0 in
      (e, (next, lookup-update p a n nodes ∙ rw b f, Chain-update nodes next cells p n h.1 c))

  pub Chain-erase :
      (nodes : List (ℕ × Node A)) (link : Option ℕ) (cells : List (ℕ × A)) (p : ℕ)
      → Away p cells
      → Chain nodes link cells
      → Chain (erase p nodes) link cells
  Chain-erase nodes link [] p h c = c
  Chain-erase nodes link ((a, x) ∷ cells) p h (e, (next, f, c)) =
      let b = apart a p h.0 in
      (e, (next, lookup-erase p a nodes ∙ rw b f, Chain-erase nodes next cells p h.1 c))

  -- What the last node of a chain is when the node `n` is hung behind it.
  abbrev pub Linked : List (ℕ × Node A) → Option ℕ → ℕ → A → List (ℕ × A) → ℕ → A → Type ℓ
  Linked nodes link p v cells n x =
      (w : A) × (lookup (last_of p cells) nodes ≡ some (node w none))
      × Chain (update (last_of p cells) (node w (some n)) nodes) link
          ((p, v) ∷ cells ++ (n, x) ∷ [])

  pub Chain-append :
      (nodes : List (ℕ × Node A)) (link : Option ℕ) (p : ℕ) (v : A) (cells : List (ℕ × A)) (n : ℕ)
      (x : A)
      → Chain nodes link ((p, v) ∷ cells)
      → Distinct ((p, v) ∷ cells)
      → Away n ((p, v) ∷ cells)
      → lookup n nodes ≡ some (node x none)
      → Linked nodes link p v cells n x
  Chain-append nodes link p v [] n x (e, (next, f, (g, _))) d away at =
      let same : (p == p) ≡ true = ground arith in
      (
        v,
        rw g at f,
        (
          e,
          (
            some n,
            lookup-update p p (node v (some n)) nodes ∙ rw same refl,
            (refl, (none, lookup-update p n (node v (some n)) nodes ∙ rw away.0 at, (refl, tt))),
          ),
        ),
      )
  Chain-append nodes link p v ((a, y) ∷ cells) n x (e, (next, f, c)) d away at =
      let (w, g, h) = Chain-append nodes next a y cells n x c d.1 away.1 at in
      let b = Away-last p a y cells d.0 in
      (w, g, (e, (next, lookup-update (last_of a cells) p (node w (some n)) nodes ∙ rw b f, h)))
