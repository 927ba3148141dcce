-- ===== src/South/Gearbox/Modules/Ready.antt =====
-- How the wait for a module ends, in src/south/gearbox/goldstone/south/gearbox/gearbox.py.
use goldstone_mgmt.Base.{ℕ, zero, suc, ◌≡◌, ◌≢◌, refl, ap, ◌∙◌, Bool, true, List, [], ◌∷◌, ◌++◌, ok}
use goldstone_mgmt.Base.Exec.{Exec, bind-path}
use goldstone_mgmt.Base.Text.{Text, codes}
use goldstone_mgmt.South.Gearbox.{Platform, tai_module}
use goldstone_mgmt.South.Gearbox.Devices.{Devices, on_platform}
use goldstone_mgmt.South.Gearbox.Modules.Start.{
  Poll, ready, broken, again, poll_of, after_poll, wait_ready,
}

module _ (P : Platform) (m : ℕ) where
  -- Asked again and again, with a second between two polls, the module says some status at the
  -- n-th poll after those that say to ask again.
  pub data Says (t : Text) : ℕ → P.State → P.State → Type 0 where
    now :
        {s s' : P.State}
        → P.get (tai_module m) (codes "oper-status") s ≡ (ok t, s')
        → Says t zero s s'
    later :
        {n : ℕ} {s s' end : P.State} (u : Text)
        → P.get (tai_module m) (codes "oper-status") s ≡ (ok u, s')
        → poll_of u ≡ again
        → Says t n (P.sleep s') end
        → Says t (suc n) s end

  abbrev ask : Exec (Devices P) Text
  ask = on_platform P (P.get (tai_module m) (codes "oper-status"))

  polled :
      (d : Devices P) (s s' : P.State) (t : Text)
      → d.platform ≡ s
      → P.get (tai_module m) (codes "oper-status") s ≡ (ok t, s')
      → ask d ≡ (ok t, record d { platform = s' })
  unfolding on_platform
  polled d s s' t here h =
      let e = ap (λ x. P.get (tai_module m) (codes "oper-status") x) here ∙ h in
      rw (e, on_platform) refl

  -- what the wait leaves of the ignored modules
  unfoldable pub ignored_after : Poll → Text → List Text → List Text
  ignored_after broken loc l = l ++ loc ∷ []
  ignored_after _ loc l = l

  abbrev next : ℕ → Text → Text → Exec (Devices P) Bool
  next n loc v = after_poll P (poll_of v) loc (wait_ready P n m loc)

  -- When a module says at some poll that it is ready or broken, after polls that say neither, the
  -- wait for it ends with that poll, and the module is ignored from then on just if it is broken.
  pub wait_ready-ends :
      (loc t : Text) (n : ℕ) (p : Poll) (d : Devices P) (s end : P.State)
      → d.platform ≡ s
      → poll_of t ≡ p
      → p ≢ again
      → Says t n s end
      → wait_ready P (suc n) m loc d
        ≡ (ok true, record d { platform = end; ignored = ignored_after p loc d.ignored })
  unfolding wait_ready after_poll ignored_after
  wait_ready-ends loc t n ready d s end here e k (now h) =
      bind-path ask (next zero loc) d _ t (polled d s end t here h) ∙ rw (e, after_poll) refl
  wait_ready-ends loc t n broken d s end here e k (now h) =
      bind-path ask (next zero loc) d _ t (polled d s end t here h) ∙ rw (e, after_poll) refl
  wait_ready-ends loc t n again d s end here e k (now h) = absurd (k refl)
  wait_ready-ends loc t n p d s end here e k (later {n = n'} {s' = s'} u h f r) =
      let rest =
        wait_ready-ends loc t n' p (record d { platform = P.sleep s' }) (P.sleep s') end refl e k
          r in
      bind-path ask (next (suc n') loc) d _ u (polled d s s' u here h) ∙ rw (f, after_poll) rest
