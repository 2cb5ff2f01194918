-- ===== src/Ir/Gates.antt =====
-- The two gates before a regenerated line: routeManaged of core/ir/route.go and Representable of
-- core/model/profile.go.
use zsh_pro.Prelude.{
  ◌≡◌, refl, ap, Bool, true, false, not, ◌&&◌, ◌||◌, nat_eq, ltb, length, if◌then◌else◌, arith,
  Bool-cases, inl, inr,
}
use zsh_pro.Data.Bytes.{Bytes, bytes_eq}
use zsh_pro.Model.Profile.{
  BlockKind, Category, Entry, effective_managed, declaration_representable,
  option_syntax_representable, shape_representable, representable,
}
use zsh_pro.Model.Block.{Block}
use zsh_pro.Ir.{route_kind, route_managed, entry_of, regenerate_line}

-- What routing leaves to Representable.
unfoldable pub shape_left : Block → BlockKind → Bool
shape_left b BlockKind.alias = b.alias_assignment
shape_left b BlockKind.command = option_syntax_representable b.option_flags
shape_left b _ = true

unfoldable pub plain : Block → Bool
plain b = not (b.indexed || ltb 0 (length b.declaration_flags)) && shape_left b b.kind

kind_gate :
    (b : Block) (category : Category) (k : BlockKind)
    → b.kind ≡ k
    → route_kind b category k ≡ true
    → (declaration_representable (entry_of b category) ≡ true)
      × (shape_representable (entry_of b category) k ≡ shape_left b k)
unfolding route_kind declaration_representable shape_representable shape_left entry_of
kind_gate b category BlockKind.alias e h = (rw (e) refl, ground arith)
kind_gate b category BlockKind.func_decl e h = (rw (e) refl, refl)
kind_gate b category BlockKind.assignment e h = (rw (e) (ground arith), ground arith)
kind_gate b category BlockKind.command e h = (rw (e) refl, ground arith)
kind_gate b category BlockKind.compound e h = absurd (ground arith)
kind_gate b category BlockKind.other e h = absurd (ground arith)
kind_gate b category (BlockKind.unknown k) e h = absurd (ground arith)

true_choice : (b : Bool) (e : Bool) → (if b then false else e) ≡ true → (b ≡ false) × (e ≡ true)
true_choice b e h = ground arith

routed :
    (b : Block) (category : Category)
    → route_managed b category ≡ true
    → (b.opaque ≡ false) × (route_kind b category b.kind ≡ true)
unfolding route_managed
routed b category h = true_choice b.opaque (route_kind b category b.kind) h

representable-plain :
    (b : Block) (category : Category)
    → route_managed b category ≡ true
    → representable (entry_of b category) ≡ plain b
unfolding representable plain entry_of
representable-plain b category h =
    let (visible, kind) = routed b category h in
    let (declared, shape) = kind_gate b category b.kind refl kind in
    ground (arith, visible, declared, shape)

gate :
    (b : Block) (category : Category)
    → (route_managed b category && representable (entry_of b category))
      ≡ (route_managed b category && plain b)
gate b category = elim (Bool-cases (route_managed b category)) [
  | inl good ↦ ap (λ c. route_managed b category && c) (representable-plain b category good)
  | inr bad ↦ ground (arith, bad)
]

-- The line of a block's entry is what the regenerator renders exactly if routing lets the block
-- through, the block carries no subscript and no declaration attributes and, for an alias, is a
-- definition or, for an option command, has at most the plain invocation controls. Otherwise the
-- line is the block's text.
pub regenerate_line-gates :
    (render : Entry → Bytes) (b : Block) (category : Category)
    → regenerate_line render (entry_of b category)
      ≡ (if route_managed b category && plain b then render (entry_of b category) else b.text)
unfolding regenerate_line effective_managed entry_of
regenerate_line-gates render b category =
    ap (λ c. if c then render (entry_of b category) else b.text) (gate b category)
