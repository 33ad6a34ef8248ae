-- ===== src/DNode/Walk.antt =====
-- `Services::walkTo`, writes through the pointer that it returns, and the namespace that a tree
-- stands for: a dictionary from paths to the fields of the node there.
use mathlib.Core.Option
use dwt_src.Prelude.{
  ◌≡◌, refl, Bool, true, false, Option, none, some, [], ◌∷◌, ◌++◌, arith, Option-cases, inl, inr,
  if◌then◌else◌,
}
use dwt_src.Bytes.{Bytes, bytes_eq, bytes_eq_iff, Names, names_eq}
use dwt_src.DNode.{
  NodeInfo, DNode, node, Children, leaf, entry, info, children, find, erase, modify_child,
}

-- The node at the end of the path, if every name on it is there.
unfoldable pub walk : DNode → Names → Option DNode
walk n [] = some n
walk n (p ∷ ps) = elim (find p (children n)) [ none ↦ none | some c ↦ walk c ps ]

-- The tree after a write to the node at the end of the path.
unfoldable pub write_at : (DNode → DNode) → Names → DNode → DNode
write_at f [] n = f n
write_at f (p ∷ ps) n = node (info n) (modify_child p (write_at f ps) (children n))

abbrev pub Namespace : Type 0
Namespace = Names → Option NodeInfo

unfoldable pub view : DNode → Namespace
view n q = Option.map info (walk n q)

-- `q` without `p` in front.
unfoldable pub strip : Names → Names → Option Names
strip [] q = some q
strip (a ∷ p) [] = none
strip (a ∷ p) (b ∷ q) = if bytes_eq a b then strip p q else none

pub find-modify_child :
    (k j : Bytes) (f : DNode → DNode) (cs : Children)
    → find j (modify_child k f cs) ≡ (if bytes_eq k j then Option.map f (find j cs) else find j cs)
unfolding find modify_child
find-modify_child k j f leaf = ground arith
find-modify_child k j f (entry i n cs) =
    ground (arith, find-modify_child k j f cs, bytes_eq_iff i k, bytes_eq_iff i j, bytes_eq_iff k j)

pub find-erase :
    (k j : Bytes) (cs : Children) → find j (erase k cs) ≡ (if bytes_eq k j then none else find j cs)
unfolding find erase
find-erase k j leaf = ground arith
find-erase k j (entry i n cs) =
    ground (arith, find-erase k j cs, bytes_eq_iff i k, bytes_eq_iff i j, bytes_eq_iff k j)

pub walk-append :
    (n : DNode) (p q : Names)
    → walk n (p ++ q) ≡ elim (walk n p) [ none ↦ none | some m ↦ walk m q ]
unfolding walk
walk-append n [] q = refl
walk-append n (a ∷ p) q = elim (Option-cases (find a (children n))) [
  | inl e ↦ rw (e, walk) refl
  | inr (c, e) ↦ rw (e, walk) (walk-append c p q)
]

-- What a write at the end of a path does to the namespace: paths beyond it are looked up in the
-- node written, and no other path changes.
pub view-write_at :
    (f : DNode → DNode) (p : Names) (n m : DNode)
    → walk n p ≡ some m
    → (q : Names)
    → view (write_at f p n) q ≡ elim (strip p q) [ none ↦ view n q | some r ↦ view (f m) r ]
unfolding walk write_at view strip
view-write_at f [] n m e q = ground arith
view-write_at f (a ∷ p) n m e [] = refl
view-write_at f (a ∷ p) n m e (b ∷ q) = elim (Option-cases (find a (children n))) [
  | inl g ↦ absurd (ground arith)
  | inr (c, g) ↦
      let below : walk c p ≡ some m = ground arith in
      ground (
        arith,
        bytes_eq_iff a b,
        find-modify_child a b (write_at f p) (children n),
        view-write_at f p c m below q,
      )
]

pub strip_self : (p : Names) → strip p p ≡ some []
unfolding strip
strip_self [] = refl
strip_self (a ∷ p) = rw ((bytes_eq_iff a a).1 refl) (strip_self p)

-- `strip` finds exactly the paths that go on from `p`.
pub strip-some : (p q r : Names) → strip p q ≡ some r → q ≡ p ++ r
unfolding strip
strip-some [] q r e = ground arith
strip-some (a ∷ p) [] r e = absurd (cc)
strip-some (a ∷ p) (b ∷ q) r e = ground (arith, bytes_eq_iff a b, strip-some p q r)

pub strip-append : (p r : Names) → strip p (p ++ r) ≡ some r
unfolding strip
strip-append [] r = refl
strip-append (a ∷ p) r = rw ((bytes_eq_iff a a).1 refl) (strip-append p r)

pub view-append : (n m : DNode) (p q : Names) → walk n p ≡ some m → view n (p ++ q) ≡ view m q
unfolding view
view-append n m p q e = rw (walk-append n p q, e)

-- Nothing stands beyond a path at which nothing stands.
pub view-append_none : (n : DNode) (p q : Names) → view n p ≡ none → view n (p ++ q) ≡ none
unfolding view
view-append_none n p q e = ground (arith, walk-append n p q)

pub strip-append_left : (p a q : Names) → strip (p ++ a) (p ++ q) ≡ strip a q
unfolding strip
strip-append_left [] a q = refl
strip-append_left (x ∷ p) a q = rw ((bytes_eq_iff x x).1 refl) (strip-append_left p a q)

pub names_eq-append_left : (p a q : Names) → names_eq (p ++ a) (p ++ q) ≡ names_eq a q
unfolding names_eq
names_eq-append_left [] a q = refl
names_eq-append_left (x ∷ p) a q = rw ((bytes_eq_iff x x).1 refl) (names_eq-append_left p a q)

pub strip-append_none : (p a q : Names) → strip p q ≡ none → strip (p ++ a) q ≡ none
unfolding strip
strip-append_none [] a q e = absurd (cc)
strip-append_none (x ∷ p) a [] e = refl
strip-append_none (x ∷ p) a (y ∷ q) e = ground (arith, strip-append_none p a q)

pub names_eq-append_none : (p a q : Names) → strip p q ≡ none → names_eq (p ++ a) q ≡ false
unfolding strip names_eq
names_eq-append_none [] a q e = absurd (cc)
names_eq-append_none (x ∷ p) a [] e = refl
names_eq-append_none (x ∷ p) a (y ∷ q) e = ground (arith, names_eq-append_none p a q)

-- `q` is `p`, or stands below it.
abbrev pub goes_through : Names → Names → Bool
goes_through p q = elim (strip p q) [ none ↦ false | some _ ↦ true ]
