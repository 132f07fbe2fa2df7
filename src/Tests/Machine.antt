-- ===== src/Tests/Machine.antt =====
-- A machine that answers from a script: each request takes one unit of time and the next answer.
use saltext_vmware.Base.{ℕ, ◌+◌, ◌≤◌, String, true, false, Option, none, some, List, [], ◌∷◌, arith}
use saltext_vmware.Json.{Json, null, bool, num, str, arr, obj, field, end, Fields}
use saltext_vmware.Http.{Request, Response, parsed, malformed, Reply, answered, failed}
use saltext_vmware.Exec.{Caches, Env, IsClock, World, exited}

pub record Script : Type 0 where
  pub time : ℕ
  pub answers : List Reply

abbrev answer : List Reply → ℕ → Reply × Script
answer [] t = (failed "connection refused", record { time = t + 1; answers = [] })
answer (a ∷ rest) t = (a, record { time = t + 1; answers = rest })

abbrev repr : Json → String
repr null = "None"
repr (bool true) = "True"
repr (bool false) = "False"
repr (num n) = "1"
repr (str s) = s
repr (arr vs) = "[...]"
repr (obj fs) = "{...}"

-- The one text that is JSON here: what the appliance answers with
abbrev policy_text : String → Option Json
policy_text s = some (obj (field "maximumPasswordAge" (num 365) end))

instance abbrev pub machine : Env
machine = record {
  State = Script;
  respond = λ r s. answer s.answers s.time;
  monotonic = λ s. s.time;
  suspend = λ n s. record s { time = s.time + n };
  run_command = λ cfg command s. (exited 0 command "", record s { time = s.time + 1 });
  repr = repr;
  parse_int = λ s. none;
  dumps = repr;
  loads = policy_text;
  status_error = λ resp. "error";
}

answer_later : (replies : List Reply) (t : ℕ) → t ≤ (answer replies t).1.time
answer_later [] t = omega arith
answer_later (a ∷ rest) t = omega arith

pub machine-IsClock : IsClock machine
machine-IsClock = record {
  respond_later = λ r s. answer_later s.answers s.time;
  suspend_later = λ n s. omega arith;
}

-- A response with a JSON body, and one with an error
abbrev pub success : Json → Reply
success v = answered (record {
  status_code = 200;
  reason = "OK";
  url = "https://vc";
  method = some "GET";
  text = some "";
  content = true;
  json = parsed v;
})

abbrev pub failure_with : ℕ → Response
failure_with code = record {
  status_code = code;
  reason = "Error";
  url = "https://vc";
  method = some "GET";
  text = some "";
  content = true;
  json = malformed "no JSON";
}

abbrev pub failure : ℕ → Reply
failure code = answered (failure_with code)

abbrev pub no_caches : Caches
no_caches = record { sddc = []; installer = []; vrli = [] }

-- A world whose machine gives these answers, with no session
abbrev pub scripted : List Reply → World Script
scripted answers = record {
  remote = record { time = 0; answers = answers };
  sessions = end;
  caches = no_caches;
  sent = [];
  ran = [];
}

-- The same with a session in the cache, at a time and after a history
abbrev pub connected : ℕ → List Request → List Reply → World Script
connected t sent answers = record {
  remote = record { time = t; answers = answers };
  sessions = field "vc:root" (str "token") end;
  caches = no_caches;
  sent = sent;
  ran = [];
}

abbrev pub pillar : Fields → Json
pillar patch = obj (
    field "saltext.vcf"
      (obj (
        field "vcenter"
          (obj (
            field "host" (str "vc")
              (field "username" (str "root") (field "password" (str "pw") end))))
          (field "vc_patch" (obj patch) end)))
      end)

-- `__opts__` of a real run, and of one under `test=True`
abbrev pub options : Json
options = obj (field "pillar" (pillar end) end)

abbrev pub test_options : Json
test_options = obj (field "pillar" (pillar end) (field "test" (bool true) end))
