-- ===== src/Compiler/Compile/Tests.antt =====
-- A launch that is compiled, from a template and an input.
use examples_service.Common.{none, some}
use examples_service.Js.{str, end, field}
use examples_service.Compiler.Settings.{Settings}
use examples_service.Compiler.Compile.{Environment, passed}
use examples_service.Compiler.Compile.Contracts.{CompileLaunchRequest}

abbrev env : Environment
env = record { validate = λ schema inputs. passed; session_id = "s1"; node_env = none }

abbrev request : CompileLaunchRequest
request = record {
  scenario_ref = "fraud/check@1.0.0";
  template_id = some "large";
  inputs = field "note" (str "hi") end;
  mode = none;
}
