-- ===== src/Proxy/Polling.antt =====
-- src/liftApi/lift_proxy.py: polling, and what is sent of the changed parameters.
use gateway_nexy.Base.{
  Bool, true, false, Option, none, some, List, [], ◌∷◌, ◌++◌, ◌||◌, if◌then◌else◌,
}
use gateway_nexy.Base.Int.{ℤ, pos}
use gateway_nexy.Base.IntDict.{elem}
use gateway_nexy.Base.Text.{Text, text}
use gateway_nexy.Codes.{is_no_err}
use gateway_nexy.Modbus.Registers.{Val}
use gateway_nexy.Proxy.Devices.{Handler, Library, Devices}
use gateway_nexy.Proxy.Bind.{LiftProxy}
use gateway_nexy.Proxy.Access.{get_param_value}
use gateway_nexy.Base.Json.{Fields}
use gateway_nexy.Proxy.Twin.{get_interval, get_param_push_list}

-- A parameter with its value.
abbrev pub Change : Type 0
Change = ℤ × Val

-- What a round hands on, in order: the changes to the supervisor, and an event to the cloud.
pub data Effect : Type 0 where
  notify : List Change → Effect
  send_event : List Change → Effect

-- The parameters of the push list among the changed ones.
abbrev pub in_push_list : List ℤ → List ℤ → List ℤ
in_push_list push_list [] = []
in_push_list push_list (p ∷ changed) =
    let rest = in_push_list push_list changed in if elem p push_list then p ∷ rest else rest

abbrev pub notify_all : List Change → List Effect
notify_all [] = []
notify_all (c ∷ changes) = notify (c ∷ changes) ∷ []

abbrev pub send_all : List Change → List Effect
send_all [] = []
send_all (c ∷ changes) = send_event (c ∷ changes) ∷ []

module _ (d : Devices) where
  open d use {State, poll_lib, get_param, default_on_change, default_daily}

  -- `poll_params` with the library and the handler.
  unfoldable pub poll_bound :
      Library → Handler → Bool → LiftProxy → State → Option (List ℤ) × LiftProxy × State
  poll_bound lib handler force_read_all p s =
      let (changed, s') = poll_lib lib handler (force_read_all || p.force_read_all) s in
      elim changed [
        | none ↦ (none, p, s')
        | some ps ↦ (some ps, record p { force_read_all = false }, s')
      ]

  -- `poll_params`; `none` is an exception.
  unfoldable pub poll_params : Bool → LiftProxy → State → Option (List ℤ) × LiftProxy × State
  unfolding poll_bound
  poll_params force_read_all p s = elim p.lib [
    | none ↦ (some [], p, s)
    | some lib ↦ elim p.handler [
      | none ↦ (some [], p, s)
      | some handler ↦ poll_bound lib handler force_read_all p s
    ]
  ]

  -- The values of the library that have no error.
  unfoldable pub changes_of : Library → State → List ℤ → List Change
  changes_of lib s [] = []
  changes_of lib s (pid ∷ ids) =
      let rest = changes_of lib s ids in
      let (value, code) = get_param lib pid s in
      if is_no_err code then (pid, value) ∷ rest else rest

  -- `_notify_supervisor`, with a supervisor or without; what the supervisor raises is caught.
  unfoldable pub notify_supervisor : Bool → LiftProxy → State → List ℤ → List Effect
  unfolding changes_of
  notify_supervisor false p s changed_ids = []
  notify_supervisor true p s changed_ids = elim p.lib [
    | none ↦ []
    | some lib ↦ notify_all (changes_of lib s changed_ids)
  ]

  abbrev data_of : LiftProxy → State → List ℤ → List Change
  data_of p s [] = []
  data_of p s (pid ∷ ids) =
      let rest = data_of p s ids in
      let (value, code) = get_param_value d p pid s in
      if is_no_err code then elim value [ none ↦ rest | some v ↦ (pid, v) ∷ rest ] else rest

  -- `_send_params`; what sending raises is caught by the loops.
  unfoldable pub send_params : LiftProxy → State → List ℤ → List Effect
  unfolding get_param_value
  send_params p s param_ids = elim p.lib [ none ↦ [] | some lib ↦ send_all (data_of p s param_ids) ]

  -- `_get_param_push_list`
  unfoldable pub push_list : LiftProxy → Option Fields → Text → (Library → List ℤ) → Option (List ℤ)
  unfolding get_param_push_list
  push_list p desired list_type default_of = elim p.lib [
    | none ↦ some []
    | some lib ↦ get_param_push_list desired list_type (default_of lib)
  ]

  -- The effects of a poll that returns some changed parameters.
  unfoldable pub push_changes : Bool → Option Fields → LiftProxy → State → List ℤ → List Effect
  unfolding notify_supervisor send_params push_list
  push_changes supervised desired p s [] = []
  push_changes supervised desired p s (pid ∷ changed) =
      notify_supervisor supervised p s (pid ∷ changed)
      ++ elim (push_list p desired (text "onChange") default_on_change) [
        | none ↦ []
        | some ps ↦ elim (in_push_list ps (pid ∷ changed)) [
          | [] ↦ []
          | q ∷ to_send ↦ send_params p s (q ∷ to_send)
        ]
      ]

  unfoldable push_polled : Bool → Option Fields → Option (List ℤ) → LiftProxy → State → List Effect
  unfolding push_changes
  push_polled supervised desired none p s = []
  push_polled supervised desired (some changed) p s = push_changes supervised desired p s changed

  -- A round of `_polling_loop`: its effects, the seconds of sleep, where `none` is an exception that
  -- ends the loop, and the state.
  unfoldable pub polling_round :
      Bool → Option Fields → LiftProxy → State → (List Effect × Option ℤ) × LiftProxy × State
  unfolding poll_params push_polled get_interval
  polling_round supervised desired p s =
      let (changed, p', s') = poll_params false p s in
      (
        (
          push_polled supervised desired changed p' s',
          get_interval desired (text "liftAgentPolling") (pos 5),
        ),
        p',
        s',
      )

  -- A round of `_daily_loop` after its sleep: its effects.
  unfoldable pub daily_round : Option Fields → LiftProxy → State → List Effect
  unfolding push_list send_params
  daily_round desired p s = elim (push_list p desired (text "daily") default_daily) [
    | none ↦ []
    | some ps ↦ send_params p s ps
  ]

  -- The sleep of `_daily_loop`.
  unfoldable pub daily_sleep : Option Fields → Option ℤ
  unfolding get_interval
  daily_sleep desired = get_interval desired (text "dailyTimer") (pos 86400)
