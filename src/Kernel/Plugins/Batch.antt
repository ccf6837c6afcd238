-- ===== src/Kernel/Plugins/Batch.antt =====
-- What loading every plugin leaves of them.
use text.Mathlib.Text.{◌==◌ as str_eq}
use text.Mathlib.TextEquality.{eq_iff}
use eag.Prelude.{
  ◌⊎◌, ◌≡◌, ◌≢◌, refl, ap, sym, ◌∙◌, true, Option, none, some, List, [], ◌∷◌, String, arith,
  Bool-cases, Option-cases, inl, inr,
}
use eag.Prelude.Keys.{elem}
use eag.Kernel.System.{System, PluginPolicy, required, optional}
use eag.Kernel.Plugins.{Entry, Manager, Error, Outcome, load}
use eag.Kernel.Plugins.All.{is_loaded, load_each}
use eag.Kernel.Plugins.Loading.{Loads, Loads-refl, Loads-trans, load-Loads, policy_of}

-- What loading the plugins of a list leaves.
pub record LoadsEach (s : System) (m : Manager) (names : List String) (o : Outcome s) : Type 0 where
  pub loads : Loads m o.1
  pub each :
      o.0 ≡ none
      → (k : String) → elem k names ≡ true
      → policy_of (m.plugins k) ≡ some required
      → is_loaded (o.1.plugins k) ≡ true

LoadsEach-next :
    (s : System) (m : Manager) (w : s.World) (name : String) (names : List String) (r : Entry)
    → m.plugins name ≡ some r
    → ((load s m w name).0 ≢ none → r.policy ≡ optional)
    → (o : Outcome s) → LoadsEach s (load s m w name).1 names o
    → LoadsEach s m (name ∷ names) o
LoadsEach-next s m w name names r e quiet o rest =
    let (first, loaded) = load-Loads s m w name r e in
    record {
      loads = Loads-trans _ _ _ first rest.loads;
      each = λ z k here needed. elim (Bool-cases (str_eq name k)) [
        | inr other ↦ rest.each z k (ground (arith, here, other)) (first.policies k ∙ needed)
        | inl same ↦
            let n : name ≡ k = (eq_iff name k).0 same in
            elim (Option-cases (load s m w name).0) [
              | inl done ↦
                  ap (λ i. is_loaded (o.1.plugins i)) (sym n) ∙ rest.loads.kept name (loaded done)
              | inr (x, stopped) ↦
                  let lax : r.policy ≡ optional = quiet (λ z. cc (stopped, z)) in
                  let strict : policy_of (some r) ≡ some required = cc (n, e, needed) in
                  cc (lax, strict)
            ]
      ];
    }

policy-cases : (p : PluginPolicy) → (p ≡ required) ⊎ (p ≡ optional)
policy-cases required = inl refl
policy-cases optional = inr refl

pub raised-some : (e : Error) → ◌≢◌ {A = Option Error} (some e) none
raised-some e h = cc

pub load_each-LoadsEach :
    (s : System) (m : Manager) (w : s.World) (names : List String)
    → LoadsEach s m names (load_each s m w names)
unfolding load_each
load_each-LoadsEach s m w [] = record { loads = Loads-refl m; each = λ z k here needed. cc }
load_each-LoadsEach s m w (name ∷ names) =
    let o = load s m w name in
    let rest = load_each-LoadsEach s o.1 o.2 names in
    elim (Option-cases (m.plugins name)) [
      | inl e ↦
          rw (e, load_each) (record { loads = Loads-refl m; each = λ z. absurd (raised-some _ z) })
      | inr (r, e) ↦ elim (Option-cases o.0) [
        | inl done ↦
            rw (e, done, load_each)
              (LoadsEach-next s m w name names r e (λ z. absurd (z done)) _ rest)
        | inr (x, stopped) ↦ elim (policy-cases r.policy) [
          | inl strict ↦
              rw (e, stopped, strict, load_each)
                (record {
                  loads = (load-Loads s m w name r e).0;
                  each = λ z. absurd (raised-some x z);
                })
          | inr lax ↦
              rw (e, stopped, lax, load_each)
                (LoadsEach-next s m w name names r e (λ z. lax) _ rest)
        ]
      ]
    ]
