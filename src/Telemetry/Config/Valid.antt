-- ===== src/Telemetry/Config/Valid.antt =====
-- What the configuration of a StreamSubscription that was created satisfies
-- (src/system/telemetry/goldstone/system/telemetry/telemetry.py).
use goldstone_mgmt.Base.{
  ℕ, ◌*◌, ◌≤◌, ◌≡◌, ◌≢◌, refl, ◌⊎◌, inl, inr, String, Bool, true, false, Option, none, some, [],
  ◌∷◌, Result, ok, err, string_eq, nat_eq, arith, ==_iff, Option-cases,
}
use mathlib.Core.Path.{subst}
use goldstone_mgmt.Base.Dict.{Dict}
use goldstone_mgmt.Base.Text.{Text}
use goldstone_mgmt.Telemetry.Path.{Schema, is_valid_path, ◌>>=ᵣ◌}
use goldstone_mgmt.Telemetry.Config.{
  SubscriptionConfig, Request, Subscription, stream, default, heartbeat_disabled, stream_mode,
  stream_defaults, map_values, parse_config, parse_items, validate_path, validate_paths,
  validate_stream, validate_streams, validate_config, create, items_of,
}

pub record IsStreamValid {S : Type 0} (P : Schema S) (interval : ℕ) (c : SubscriptionConfig)
    : Type 0 where
  pub path_known : (p : Text) × (c.path ≡ some p) × (is_valid_path P p ≡ ok true)
  pub mode_chosen : (m : String) × (c.mode ≡ some m) × (m ≢ "TARGET_DEFINED")
  pub heartbeat :
      (h : ℕ) × (c.heartbeat_interval ≡ some h) × ((h ≡ heartbeat_disabled) ⊎ (interval ≤ h))
  pub sample : (n : ℕ) × (c.sample_interval ≡ some n) × (c.mode ≡ some "SAMPLE" → interval ≤ n)
  pub redundant : (b : Bool) × (c.suppress_redundant ≡ some b)

abbrev pub AllValues : {A : Type 0} → (A → Type 0) → Dict ℕ A → Type 0
AllValues P [] = Unit
AllValues P ((k, v) ∷ d) = P v × AllValues P d

>>=ᵣ-eq-ok :
    {A B : Type 0} (m : Result A) (f : A → Result B) {b : B}
    → (m >>=ᵣ f) ≡ ok b
    → (a : A) × (m ≡ ok a) × (f a ≡ ok b)
>>=ᵣ-eq-ok (ok a) f h = (a, refl, h)
>>=ᵣ-eq-ok (err e) f h = absurd (cc)

stream_mode-ne :
    (p : Option Text) (o : Option String) (m : String)
    → stream_mode p o ≡ some m
    → m ≢ "TARGET_DEFINED"
unfolding stream_mode
stream_mode-ne p none m h = absurd (cc)
stream_mode-ne p (some o) m h =
    ground (arith, ==_iff o "TARGET_DEFINED", ==_iff {A = String} "SAMPLE" "TARGET_DEFINED")

module _ {S : Type 0} (P : Schema S) where
  validated_path :
      (c : SubscriptionConfig)
      → validate_path P c ≡ ok tt
      → (p : Text) × (c.path ≡ some p) × (is_valid_path P p ≡ ok true)
  unfolding validate_path
  validated_path c h = elim (Option-cases c.path) [
    | inl e ↦ absurd (ground arith)
    | inr (p, e) ↦ (p, e, ground arith)
  ]

  validated_stream :
      (interval n : ℕ) (c₀ : SubscriptionConfig)
      → validate_path P (stream_defaults n c₀) ≡ ok tt
      → validate_stream interval (stream_defaults n c₀) ≡ ok tt
      → IsStreamValid P interval (stream_defaults n c₀)
  unfolding stream_defaults
  validated_stream interval n c₀ hp h = record {
    path_known = validated_path (stream_defaults n c₀) hp;
    mode_chosen = elim (Option-cases (stream_mode c₀.path c₀.mode)) [
      | inl e ↦ absurd (unfold validate_stream in ground arith)
      | inr (m, e) ↦ (m, e, stream_mode-ne c₀.path c₀.mode m e)
    ];
    heartbeat = (
      default heartbeat_disabled c₀.heartbeat_interval,
      refl,
      unfold validate_stream in ground arith,
    );
    sample = (default n c₀.sample_interval, refl, unfold validate_stream in λ e. ground arith);
    redundant = (default false c₀.suppress_redundant, refl);
  }

  validated_all :
      (interval n : ℕ) (d : Dict ℕ SubscriptionConfig)
      → validate_paths P (map_values (stream_defaults n) d) ≡ ok tt
      → validate_streams interval (map_values (stream_defaults n) d) ≡ ok tt
      → AllValues (IsStreamValid P interval) (map_values (stream_defaults n) d)
  unfolding validate_paths validate_streams map_values
  validated_all interval n [] hp h = tt
  validated_all interval n ((k, c) ∷ d) hp h =
      let (p₁, p₂, p₃) = >>=ᵣ-eq-ok (validate_path P (stream_defaults n c)) _ hp in
      let (s₁, s₂, s₃) = >>=ᵣ-eq-ok (validate_stream interval (stream_defaults n c)) _ h in
      (validated_stream interval n c p₂ s₂, validated_all interval n d p₃ s₃)

  checked_all :
      (interval : ℕ) (r : Request) (d : Dict ℕ SubscriptionConfig)
      → parse_config stream interval r ≡ ok d
      → validate_config P stream interval d ≡ ok tt
      → AllValues (IsStreamValid P interval) d
  unfolding parse_config validate_config
  checked_all interval r d parsed checked =
      let (d₀, items, made) = >>=ᵣ-eq-ok (parse_items (items_of r.subscriptions) []) _ parsed in
      let defaults : map_values (stream_defaults (interval * 2)) d₀ ≡ d = cc in
      let (c, paths, streams) = >>=ᵣ-eq-ok (validate_paths P d) _ checked in
      subst (AllValues (IsStreamValid P interval)) defaults
        (validated_all interval (interval * 2) d₀ (rw defaults paths) (rw defaults streams))

  -- Every subscription of a StreamSubscription that was created has a path that the schema knows, a
  -- mode other than TARGET_DEFINED, a heartbeat that is off or not below the update interval, a
  -- sample interval that is not below it where the mode is SAMPLE, and a choice on redundant values.
  pub create_stream :
      (r : Request) (interval : ℕ) (s : Subscription)
      → create P stream r interval ≡ ok s
      → AllValues (IsStreamValid P interval) s.subscriptions
  unfolding create
  create_stream r interval s h = elim (Option-cases r.id) [
    | inl e ↦ absurd (ground arith)
    | inr (id, e) ↦
        let (d, parsed, k) = >>=ᵣ-eq-ok (parse_config stream interval r) _ (rw (e, create) at h) in
        let (c, checked, made) = >>=ᵣ-eq-ok (validate_config P stream interval d) _ k in
        let same : d ≡ s.subscriptions = cc in
        subst (AllValues (IsStreamValid P interval)) same (checked_all interval r d parsed checked)
  ]
