-- ===== src/Server/Lifecycle/Listening.antt =====
-- The server listens exactly while it runs, whatever calls of Start and Stop come
-- (internal/pkg/modbusserver/server.go).
use app_modbus_go.Prelude.{
  ◌≡◌, refl, ◌∙◌, inl, inr, Bool, false, not, ◌||◌, Option, none, some, List, [], ◌∷◌, Bool-cases,
  Option-cases,
}
use app_modbus_go.Prelude.Eq.{String_eq, ◌==◌}
use app_modbus_go.Config.{ModbusConfig}
use app_modbus_go.Server.Lifecycle.{
  Listener, Instance, ModbusServer, new_modbus_server, register_handlers, tcp_listener,
  rtu_listener, with_server, listen, start, close, stop, is_running,
}

-- Whether a server has a listener that is open.
abbrev pub is_open : Option Instance → Bool
is_open none = false
is_open (some i) = elim i.listener [ none ↦ false | some l ↦ not i.closed ]

abbrev pub any_open : List Instance → Bool
any_open [] = false
any_open (i ∷ is) = is_open (some i) || any_open is

-- A call of Start, with which listeners open then, or of Stop.
pub data Call : Type 0 where
  start_call : (Listener → Bool) → Call
  stop_call : Call

abbrev pub after : List Call → ModbusServer → ModbusServer
after [] s = s
after (start_call listens ∷ cs) s = after cs (start listens s).0
after (stop_call ∷ cs) s = after cs (stop s)

abbrev Listens : ModbusServer → Type 0
Listens s = (is_open s.server ≡ s.running) × (any_open s.abandoned ≡ false)

listen-Listens :
    (listens : Listener → Bool) (l : Listener) (s : ModbusServer)
    → s.running ≡ false
    → s.server ≡ some register_handlers
    → any_open s.abandoned ≡ false
    → Listens (listen listens l register_handlers s).0
unfolding listen register_handlers
listen-Listens listens l s idle server old = elim (Bool-cases (listens l)) [
  | inl up ↦ rw up (refl, old)
  | inr down ↦ rw down (rw (idle, server) refl, old)
]

start-Listens :
    (listens : Listener → Bool) (s : ModbusServer) → Listens s → Listens (start listens s).0
unfolding start register_handlers
start-Listens listens s (live, old) = elim (Bool-cases s.running) [
  | inl up ↦ rw (start, up) (live ∙ up, old)
  | inr idle ↦
      let old' = with_old s.server s.abandoned (live ∙ idle) old in
      elim (Bool-cases (s.config.type_name == "TCP")) [
        | inl tcp ↦
            rw (start, idle, tcp) (listen-Listens listens (tcp_listener s.config) _ refl refl old')
        | inr no_tcp ↦ elim (Bool-cases (s.config.type_name == "RTU")) [
          | inl rtu ↦
              rw (start, idle, no_tcp, rtu)
                (listen-Listens listens (rtu_listener s.config) _ refl refl old')
          | inr no_rtu ↦ rw (start, idle, no_tcp, no_rtu) (refl, old')
        ]
      ]
]
  where
    with_old :
        (server : Option Instance) (old : List Instance)
        → is_open server ≡ false
        → any_open old ≡ false
        → any_open (with_server server old) ≡ false
    with_old none old e h = h
    with_old (some i) old e h = rw e h

stop-Listens : (s : ModbusServer) → Listens s → Listens (stop s)
unfolding stop
stop-Listens s (live, old) = elim (Bool-cases s.running) [
  | inl up ↦ rw (stop, up) (closed s.server, old)
  | inr idle ↦ rw (stop, idle) (live ∙ idle, old)
]
  where
    closed : (server : Option Instance) → is_open (close server) ≡ false
    closed none = refl
    closed (some i) = elim (Option-cases i.listener) [ inl e ↦ rw e refl | inr (l, e) ↦ rw e refl ]

after-Listens : (calls : List Call) (s : ModbusServer) → Listens s → Listens (after calls s)
after-Listens [] s h = h
after-Listens (start_call listens ∷ cs) s h =
    after-Listens cs (start listens s).0 (start-Listens listens s h)
after-Listens (stop_call ∷ cs) s h = after-Listens cs (stop s) (stop-Listens s h)

-- After any calls of Start, whether or not their listeners open, and of Stop, the server that the field
-- points to has an open listener exactly while IsRunning is true, and none that it pointed to
-- before has one: no listener is left behind.
pub is_running_lem :
    (calls : List Call) (config : ModbusConfig)
    → let s = after calls (new_modbus_server config) in
      (is_open s.server ≡ is_running s) × (any_open s.abandoned ≡ false)
unfolding is_running new_modbus_server
is_running_lem calls config = after-Listens calls (new_modbus_server config) (refl, refl)
