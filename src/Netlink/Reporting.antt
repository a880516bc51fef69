-- ===== src/Netlink/Reporting.antt =====
-- reporter.c: what every run of the program does.
use snippet.Base.{ℕ, ◌≡◌, refl, true, none, some, List, [], ◌∷◌, ℤ, pos, neg, is_negative}
use snippet.Config.{atoi}
use snippet.Netlink.Messages.{Messages}
use snippet.Netlink.Process.{
  Ended, Action, continue, ◌>>◌, pure, Act, Log, Libnl, microseconds, or_exit-rule,
  exit_if_negative-rule, get_time_us-rule, sent_messages,
}
use snippet.Netlink.Reporter.{
  Reporter, init_genl_ctx, shutdown_genl_ctx, event_message, report_event, reporter_main,
}

-- The program before it does anything.
abbrev pub fresh_reporter : (m : Messages) → Reporter m
fresh_reporter m = record { log = []; nl_sock = none; genl_family_id = 0 }

module _ (m : Messages) (os : Libnl m) (text : List ℕ) where
  -- A run that reported the event: the time and the empty message that it was given, and its
  -- calls, the latest first.
  pub record IsReport (log : Log m) : Type 0 where
    pub sock : ℕ
    pub spec : ℕ × ℕ
    pub timed : Log m
    pub clock_said : os.clock_gettime timed ≡ some spec
    pub empty : m.Msg
    pub nlmsg_alloc_said : os.nlmsg_alloc timed ≡ some empty
    pub calls :
        log
        ≡ Act.socket_freed sock
          ∷ Act.socket_closed sock
          ∷ Act.msg_freed
          ∷ Act.msg_sent sock (event_message m (atoi text) (microseconds spec) empty)
          ∷ Act.msg_allocated
          ∷ Act.socket_connected sock
          ∷ Act.socket_allocated sock
          ∷ []

  -- A run returns 0 and reported the event, or it exits with a negative code and sent nothing.
  abbrev pub Reports : Ended ℤ × Reporter m → Type 0
  Reports (Ended.returned ret, ctx) = (ret ≡ pos 0) × IsReport ctx.log
  Reports (Ended.exited code, ctx) = (is_negative code ≡ true) × (sent_messages ctx.log ≡ [])
  Reports (Ended.crashed, ctx) = ⊥
  Reports (Ended.running, ctx) = ⊥

  module _ (P : Ended ℤ × Reporter m → Type 0) (next : Unit {0} → Action (Reporter m) ℤ) where
    init_genl_ctx-rule :
        ((code : ℤ) (ctx : Reporter m)
          → is_negative code ≡ true
          → sent_messages ctx.log ≡ []
          → P (Ended.exited code, ctx))
        → ((sock family : ℕ)
            → P (
                next tt (record {
                  log = Act.socket_connected sock ∷ Act.socket_allocated sock ∷ [];
                  nl_sock = some sock;
                  genl_family_id = family;
                })))
        → P (continue next (init_genl_ctx m os (fresh_reporter m)))
    unfolding init_genl_ctx sent_messages
    init_genl_ctx-rule left went =
        let Q = λ (r : Ended (Unit {0}) × Reporter m). P (continue next r) in
        or_exit-rule Q _ _ (neg 12) (os.nl_socket_alloc []) (λ e. left _ _ refl refl)
          λ sock made.
            exit_if_negative-rule Q _ _ (os.nl_connect _ sock) (λ error. left _ _ refl refl)
              λ n ok.
                exit_if_negative-rule Q _ _ (os.genl_ctrl_resolve _ sock)
                  (λ error. left _ _ refl refl) (λ family ok'. rw made (went sock family))

  -- With one argument the program either returns 0, after it sent the kernel one message, the one
  -- that `event_message` makes of the number, the time that the clock gave and the empty message
  -- that was allocated (an attribute that finds no room in it is left out), and gave back the
  -- message and the socket; or it exits with a negative code and has sent nothing. It never reads
  -- through a null pointer.
  pub reporter_main-Reports : Reports (reporter_main m os (text ∷ []) (fresh_reporter m))
  unfolding reporter_main init_genl_ctx report_event shutdown_genl_ctx sent_messages
  reporter_main-Reports =
      init_genl_ctx-rule Reports _ (λ code ctx negative silent. (negative, silent))
        λ sock family.
          let log : Log m = Act.socket_connected sock ∷ Act.socket_allocated sock ∷ [] in
          let Q = λ (r : Ended (Unit {0}) × Reporter m).
            Reports (continue (λ done. shutdown_genl_ctx m os >> pure (pos 0)) r) in
          get_time_us-rule os (λ ctx. ctx.log) Q _ _ (refl, refl)
            λ spec timed.
              or_exit-rule Q _ _ (neg 1) (os.nlmsg_alloc log) (λ e. (refl, refl))
                λ empty given.
                  exit_if_negative-rule Q _ _ (os.nl_send_auto _ _) (λ error. (refl, refl))
                    λ n ok. (
                      refl,
                      record {
                        sock = sock;
                        spec = spec;
                        timed = log;
                        clock_said = timed;
                        empty = empty;
                        nlmsg_alloc_said = given;
                        calls = refl;
                      },
                    )
