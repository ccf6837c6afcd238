-- ===== src/Kernel/Plugins/Unloading.antt =====
-- What unloading every plugin leaves of them.
use text.Mathlib.Text.{◌==◌ as str_eq}
use text.Mathlib.TextEquality.{eq_iff}
use eag.Prelude.{
  ◌≡◌, refl, ap, sym, ◌∙◌, true, false, Option, none, some, List, [], ◌∷◌, String, arith,
  Bool-cases, Option-cases, inl, inr,
}
use eag.Prelude.Keys.{elem, elem-append}
use eag.Kernel.System.{
  System, PluginState, Exception, publish, unload_plugin, plugin_unload_started,
  plugin_unload_completed,
}
use eag.Kernel.Plugins.{
  Entry, Manager, Error, Outcome, write, complete_unload, start_unload, unload_entry, unload,
}
use eag.Kernel.Plugins.All.{is_loaded, unload_each, reversed, unload_all}
use eag.Kernel.Plugins.Batch.{raised-some}
use eag.Kernel.Plugins.Loading.{written}

-- Behind an unload, whether or not it raises: the plugin is not loaded, and no other has changed.
record Unloaded (s : System) (m : Manager) (name : String) (o : Outcome s) : Type 0 where
  names : o.1.names ≡ m.names
  others : (k : String) → str_eq name k ≡ false → o.1.plugins k ≡ m.plugins k
  off : is_loaded (o.1.plugins name) ≡ false

module _ (s : System) (m : Manager) (name : String) where
  Unloaded-write :
      (m₁ : Manager) (e : Option Error) (w : s.World) (r : Entry)
      → m₁.names ≡ m.names
      → ((k : String) → str_eq name k ≡ false → m₁.plugins k ≡ m.plugins k)
      → is_loaded (some r) ≡ false
      → Unloaded s m name (e, write m₁ name r, w)
  Unloaded-write m₁ e w r n o off = record {
    names = n;
    others = λ k h. ground (arith, h, o k h);
    off = ap is_loaded (written m₁ name r) ∙ off;
  }

  complete_unload-Unloaded :
      (m₁ : Manager) (w : s.World) (r : Entry) (x : Option Exception)
      → m₁.names ≡ m.names
      → ((k : String) → str_eq name k ≡ false → m₁.plugins k ≡ m.plugins k)
      → Unloaded s m name (complete_unload s m₁ w name r x)
  unfolding complete_unload
  complete_unload-Unloaded m₁ w r (some x) n o = Unloaded-write m₁ _ _ _ n o refl
  complete_unload-Unloaded m₁ w r none n o =
      let answer = s.call (publish (plugin_unload_completed name)) w in
      let off : Entry = record r { state = PluginState.unloaded } in
      elim (Option-cases answer.0) [
        | inl e ↦ rw (e, complete_unload) (Unloaded-write m₁ none answer.1 off n o refl)
        | inr (y, e) ↦
            rw (e, complete_unload)
              (Unloaded-write (write m₁ name off) _ _ _ n (λ k h. ground (arith, h, o k h)) refl)
      ]

  start_unload-Unloaded : (w : s.World) (r : Entry) → Unloaded s m name (start_unload s m w name r)
  unfolding start_unload
  start_unload-Unloaded w r =
      let begun : Entry = record r { state = PluginState.unloading } in
      let started = s.call (publish (plugin_unload_started name)) w in
      let done = s.call (unload_plugin name) started.1 in
      elim (Option-cases started.0) [
        | inr (y, e) ↦
            rw (e, start_unload) (Unloaded-write m _ started.1 begun refl (λ k h. refl) refl)
        | inl e ↦
            rw (e, start_unload)
              (complete_unload-Unloaded (write m name begun) done.1 r done.0 refl
                (λ k h. ground (arith, h)))
      ]

  unload_entry-Unloaded :
      (w : s.World) (r : Entry) (state : PluginState)
      → m.plugins name ≡ some r
      → r.state ≡ state
      → Unloaded s m name (unload_entry s m w name r state)
  unfolding unload_entry
  unload_entry-Unloaded w r PluginState.loaded e h = start_unload-Unloaded w r
  unload_entry-Unloaded w r PluginState.unloaded e h = record {
    names = refl;
    others = λ k z. refl;
    off = ap is_loaded e ∙ rw h refl;
  }
  unload_entry-Unloaded w r PluginState.created e h = record {
    names = refl;
    others = λ k z. refl;
    off = ap is_loaded e ∙ rw h refl;
  }
  unload_entry-Unloaded w r PluginState.loading e h = record {
    names = refl;
    others = λ k z. refl;
    off = ap is_loaded e ∙ rw h refl;
  }
  unload_entry-Unloaded w r PluginState.unloading e h = record {
    names = refl;
    others = λ k z. refl;
    off = ap is_loaded e ∙ rw h refl;
  }
  unload_entry-Unloaded w r PluginState.failed e h = record {
    names = refl;
    others = λ k z. refl;
    off = ap is_loaded e ∙ rw h refl;
  }

  unload-Unloaded : (w : s.World) → Unloaded s m name (unload s m w name)
  unfolding unload
  unload-Unloaded w = elim (Option-cases (m.plugins name)) [
    | inl e ↦ rw (e, unload) (record { names = refl; others = λ k z. refl; off = ap is_loaded e })
    | inr (r, e) ↦ rw (e, unload) (unload_entry-Unloaded w r r.state e refl)
  ]

-- What unloading the plugins of a list leaves.
pub record UnloadsEach (s : System) (m : Manager) (names : List String) (o : Outcome s)
    : Type 0 where
  pub same : o.1.names ≡ m.names
  pub kept : (k : String) → is_loaded (m.plugins k) ≡ false → is_loaded (o.1.plugins k) ≡ false
  pub each : o.0 ≡ none → (k : String) → elem k names ≡ true → is_loaded (o.1.plugins k) ≡ false

Unloaded-off :
    (s : System) (m : Manager) (name : String) (o : Outcome s)
    → Unloaded s m name o
    → (k : String) → is_loaded (m.plugins k) ≡ false
    → is_loaded (o.1.plugins k) ≡ false
Unloaded-off s m name o u k h = elim (Bool-cases (str_eq name k)) [
  | inl same ↦ ap (λ i. is_loaded (o.1.plugins i)) (sym ((eq_iff name k).0 same)) ∙ u.off
  | inr other ↦ ap is_loaded (u.others k other) ∙ h
]

-- The plugins behind a first one that is not loaded where they begin.
UnloadsEach-next :
    (s : System) (m m₁ : Manager) (name : String) (names : List String) (o : Outcome s)
    → m₁.names ≡ m.names
    → ((k : String) → is_loaded (m.plugins k) ≡ false → is_loaded (m₁.plugins k) ≡ false)
    → is_loaded (m₁.plugins name) ≡ false
    → UnloadsEach s m₁ names o
    → UnloadsEach s m (name ∷ names) o
UnloadsEach-next s m m₁ name names o n kept off u = record {
  same = u.same ∙ n;
  kept = λ k h. u.kept k (kept k h);
  each = λ z k here. elim (Bool-cases (str_eq name k)) [
    | inl same ↦
        ap (λ i. is_loaded (o.1.plugins i)) (sym ((eq_iff name k).0 same)) ∙ u.kept name off
    | inr other ↦ u.each z k (ground (arith, here, other))
  ];
}

unload_each-UnloadsEach :
    (s : System) (m : Manager) (w : s.World) (names : List String)
    → UnloadsEach s m names (unload_each s m w names)
unfolding unload_each
unload_each-UnloadsEach s m w [] = record { same = refl; kept = λ k h. h; each = λ z k here. cc }
unload_each-UnloadsEach s m w (name ∷ names) =
    let o = unload s m w name in
    let u = unload-Unloaded s m name w in
    let off = Unloaded-off s m name o u in
    elim (Bool-cases (is_loaded (m.plugins name))) [
      | inr e ↦
          rw (e, unload_each)
            (UnloadsEach-next s m m name names _ refl (λ k h. h) e
              (unload_each-UnloadsEach s m w names))
      | inl e ↦ elim (Option-cases o.0) [
        | inl done ↦
            rw (e, done, unload_each)
              (UnloadsEach-next s m o.1 name names _ u.names off u.off
                (unload_each-UnloadsEach s o.1 o.2 names))
        | inr (x, stopped) ↦
            rw (e, stopped, unload_each)
              (record { same = u.names; kept = off; each = λ z. absurd (raised-some x z) })
      ]
    ]

elem-reversed : (k : String) (names : List String) → elem k (reversed names) ≡ elem k names
elem-reversed k [] = refl
elem-reversed k (name ∷ names) =
    elem-append k (reversed names) (name ∷ []) ∙ ground (arith, elem-reversed k names)

pub unload_all-UnloadsEach :
    (s : System) (m : Manager) (w : s.World) → UnloadsEach s m m.names (unload_all s m w)
unfolding unload_all
unload_all-UnloadsEach s m w =
    let u = unload_each-UnloadsEach s m w (reversed m.names) in
    record {
      same = u.same;
      kept = u.kept;
      each = λ z k here. u.each z k (elem-reversed k m.names ∙ here);
    }
