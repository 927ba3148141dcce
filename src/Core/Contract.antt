-- ===== src/Core/Contract.antt =====
-- What src/lib/goldstone/lib/core.py expects of the handlers of a subclass: `apply` writes down what
-- `revert` needs to take it back, an `apply` that raises has done nothing, and the other hooks leave
-- the device alone.
use goldstone_mgmt.Base.{ℕ, ◌<◌, ◌≤◌, ◌≡◌, List, ok, err, Exn}
use goldstone_mgmt.Core.{Subclass, Change, Handler, revert_all}

module _ (P : Subclass) {V : Type 0} (view : P.World → V) where
  -- The hooks before the first `apply` leave what `view` shows alone.
  pub record Quiet : Type 0 where
    pub new_user_keeps :
        (cs : List (Change P.Value)) (w : P.World) → view (P.new_user cs w).1 ≡ view w
    pub pre_keeps : (u : P.User) (w : P.World) → view (P.pre u w).1 ≡ view w
    pub create_keeps :
        (k : P.HandlerClass) (c : Change P.Value) (w : P.World) → view (P.create k c w).1 ≡ view w
    pub init_keeps : (o : P.Object) (u : P.User) (w : P.World) → view (P.init o u w).1 ≡ view w
    pub validate_keeps :
        (o : P.Object) (u : P.User) (w : P.World) → view (P.validate_object o u w).1 ≡ view w

  -- `Knows o a b w`: what the object `o` has written down in `w` takes a device that shows `b` back
  -- to `a`. Objects have addresses, and what an earlier object has written down stays.
  pub record Contract : Type 1 where
    pub quiet : Quiet
    pub Knows : P.Object → V → V → P.World → Type 0
    pub address : P.Object → ℕ
    pub next : P.World → ℕ
    pub create_fresh :
        (k : P.HandlerClass) (c : Change P.Value) (w : P.World) (o : P.Object)
        → (P.create k c w).0 ≡ ok o
        → (next w ≤ address o) × (address o < next (P.create k c w).1)
    pub init_next : (o : P.Object) (u : P.User) (w : P.World) → next w ≤ next (P.init o u w).1
    pub validate_next :
        (o : P.Object) (u : P.User) (w : P.World) → next w ≤ next (P.validate_object o u w).1
    pub apply_fails :
        (o : P.Object) (u : P.User) (w : P.World) (e : Exn)
        → (P.apply_object o u w).0 ≡ err e
        → view (P.apply_object o u w).1 ≡ view w
    pub apply_learns :
        (o : P.Object) (u : P.User) (w : P.World)
        → (P.apply_object o u w).0 ≡ ok tt
        → Knows o (view w) (view (P.apply_object o u w).1) (P.apply_object o u w).1
    pub apply_frame :
        (o e : P.Object) (u : P.User) (a b : V) (w : P.World)
        → address e < address o
        → Knows e a b w
        → Knows e a b (P.apply_object o u w).1
    pub revert_undoes :
        (o : P.Object) (u : P.User) (a : V) (w : P.World)
        → Knows o a (view w) w
        → ((P.revert_object o u w).0 ≡ ok tt) × (view (P.revert_object o u w).1 ≡ a)
    pub revert_frame :
        (o e : P.Object) (u : P.User) (a b : V) (w : P.World)
        → address e < address o
        → Knows e a b w
        → Knows e a b (P.revert_object o u w).1
    pub post_returns : (u : P.User) (w : P.World) → (P.post u w).0 ≡ ok tt
    pub post_keeps : (u : P.User) (w : P.World) → view (P.post u w).1 ≡ view w
    pub post_frame :
        (o : P.Object) (u : P.User) (a b : V) (w : P.World)
        → Knows o a b w
        → Knows o a b (P.post u w).1

  -- Reverting the handlers in this order returns, and the device then shows `v`.
  abbrev pub Undoes : List (Handler P) → P.User → V → P.World → Type 0
  Undoes hs u v w = ((revert_all P hs u w).0 ≡ ok tt) × (view (revert_all P hs u w).1 ≡ v)
