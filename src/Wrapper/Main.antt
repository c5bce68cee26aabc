-- ===== src/Wrapper/Main.antt =====
-- crates/wrapper/src/main.rs: what the process exits with. The command line is already parsed: a
-- hash and an output directory.
use sponsor.Common.Result.{Result, ok, err}
use sponsor.Common.Action.{Action}
use sponsor.Common.Text.{Text}

-- ExitCode
pub data ExitCode : Type 0 where
  success failure : ExitCode

-- `match result { Ok(()) => …, Err(e) => … }`
abbrev pub exit_code : Result (Unit {0}) → ExitCode
exit_code (ok u) = success
exit_code (err e) = failure

-- main, over the loaded configuration and `flow::pull`.
unfoldable pub main :
    {Cfg Machine : Type 0}
    → Result Cfg
    → (Text → Text → Cfg → Action Machine (Unit {0}))
    → Text
    → Text
    → Machine
    → ExitCode × Machine
main (err e) pull hash output m = (failure, m)
main (ok cfg) pull hash output m = let (r, m') = pull hash output cfg m in (exit_code r, m')
