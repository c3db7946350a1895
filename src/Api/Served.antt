-- ===== src/Api/Served.antt =====
-- api/v1/base.py: what a controller changes: the plugin's state, and the notifications sent.
use apmec.Prelude.{String, List, [], ◌∷◌, ◌++◌}
use apmec.Errors.{Error, Result, ok, err}
use apmec.Exec.{Exec}

pub record Served (S : Type 0) : Type 0 where
  pub plugin_state : S
  pub notices : List String

module _ {S : Type 0} where
  -- self._notifier.info(context, event_type, payload): which event was sent
  unfoldable pub notify : String → Exec (Served S) (Unit {0})
  notify event s = (ok tt, record s { notices = s.notices ++ (event ∷ []) })

  unfoldable pub on_plugin : {A : Type 0} → Exec S A → Exec (Served S) A
  on_plugin m s = let (r, t) = m s.plugin_state in (r, record s { plugin_state = t })

  abbrev pub settle :
      {A B : Type 0}
      → (A → Exec (Served S) B)
      → (Error → Exec (Served S) B)
      → Result A × Served S
      → Result B × Served S
  settle f h (ok a, s) = f a s
  settle f h (err e, s) = h e s

  -- try: m except: h else: f
  unfoldable pub attempt :
      {A B : Type 0}
      → Exec (Served S) A
      → (A → Exec (Served S) B)
      → (Error → Exec (Served S) B)
      → Exec (Served S) B
  attempt m f h s = settle f h (m s)
