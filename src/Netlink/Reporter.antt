-- ===== src/Netlink/Reporter.antt =====
-- kernel-module/netlink-generic/reporter.c: a program that reports one event to the kernel. Messages
-- to the terminal are left out, and with them `print_genl_msg_layout`.
use snippet.Base.{ℕ, Option, none, some, List, [], ◌∷◌, case_option, ℤ, pos, neg}
use snippet.Config.{atoi}
use snippet.Netlink.Messages.{
  Messages, demo_u_cmd_event_report, demo_u_attr_event_type, demo_u_attr_timestamp,
}
use snippet.Netlink.Process.{
  Action, ◌>>=◌, ◌>>◌, pure, modify, ask, or_exit, exit_if_negative, dereference, Act, Log, Libnl,
  get_time_us,
}

-- `ctx`, and what the program has done.
pub record Reporter (m : Messages) : Type 0 where
  pub log : Log m
  pub nl_sock : Option ℕ
  pub genl_family_id : ℕ

abbrev does : {m : Messages} → Act m.Msg → Action (Reporter m) (Unit {0})
does act = modify (λ ctx. record ctx { log = act ∷ ctx.log })

-- A call whose result is not looked at leaves the message as it was when it fails.
abbrev pub kept_if_full : {M : Type 0} → Option M → M → M
kept_if_full (some after) before = after
kept_if_full none before = before

module _ (m : Messages) where
  -- The message of an event.
  unfoldable pub event_message : ℕ → ℕ → m.Msg → m.Msg
  event_message event_type report_time msg =
      let begun = kept_if_full (m.genlmsg_put msg demo_u_cmd_event_report) msg in
      let typed = kept_if_full (m.nla_put_u32 begun demo_u_attr_event_type event_type) begun in
      kept_if_full (m.nla_put_u64 typed demo_u_attr_timestamp report_time) typed

module _ (m : Messages) (os : Libnl m) where
  unfoldable pub init_genl_ctx : Action (Reporter m) (Unit {0})
  init_genl_ctx = do
    made ← ask (λ ctx. os.nl_socket_alloc ctx.log)
    modify (λ ctx. record ctx { nl_sock = made })
    sock ← or_exit (neg 12) made
    does (Act.socket_allocated sock)
    ret ← ask (λ ctx. os.nl_connect ctx.log sock)
    ret ← exit_if_negative ret
    does (Act.socket_connected sock)
    ret ← ask (λ ctx. os.genl_ctrl_resolve ctx.log sock)
    family ← exit_if_negative ret
    modify (λ ctx. record ctx { genl_family_id = family })

  unfoldable pub shutdown_genl_ctx : Action (Reporter m) (Unit {0})
  shutdown_genl_ctx ctx = case_option ctx.nl_sock (pure tt ctx) λ sock. pure tt (record {
    log = Act.socket_freed sock ∷ Act.socket_closed sock ∷ ctx.log;
    nl_sock = none;
    genl_family_id = 0;
  })

  unfoldable pub report_event : ℕ → Action (Reporter m) (Unit {0})
  unfolding get_time_us event_message
  report_event event_type = do
    report_time ← get_time_us os (λ ctx. ctx.log)
    made ← ask (λ ctx. os.nlmsg_alloc ctx.log)
    empty ← or_exit (neg 1) made
    does Act.msg_allocated
    let msg = event_message m event_type report_time empty
    sock ← ask (λ ctx. ctx.nl_sock)
    sock ← dereference sock
    ret ← ask (λ ctx. os.nl_send_auto ctx.log msg)
    ret ← exit_if_negative ret
    does (Act.msg_sent sock msg)
    does Act.msg_freed

  -- `args` are the arguments behind the program's name.
  unfoldable pub reporter_main : List (List ℕ) → Action (Reporter m) ℤ
  unfolding init_genl_ctx report_event shutdown_genl_ctx
  reporter_main [] = pure (neg 22)
  reporter_main (event_type ∷ []) = do
    init_genl_ctx
    report_event (atoi event_type)
    shutdown_genl_ctx
    pure (pos 0)
  reporter_main (event_type ∷ second ∷ rest) = pure (neg 22)
