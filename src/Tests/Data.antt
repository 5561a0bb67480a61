-- ===== src/Tests/Data.antt =====
-- A cluster that records every call and lets it succeed, and objects to try the model on.
use kubejob.Prelude.{join, String, ◌<>◌, Bool, true, false, none, some, List, [], ◌∷◌}
use kubejob.Kube.{Container, ContainerStatus, Pod, PodPhase, BatchJob, running}
use kubejob.Errors.{ok}
use kubejob.Agent.{AgentConfig}
use kubejob.Cluster.{Cluster}
use kubejob.Executor.{JobExecutor}
use kubejob.Init.{Handler, JobInit}
use kubejob.PreInit.{PreInit}

abbrev pub Calls : Type 0
Calls = List String

abbrev pub recorder : Cluster Calls
recorder = record {
  println = λ s w. ("println " <> s) ∷ w;
  eprint = λ s w. ("eprint " <> s) ∷ w;
  new_spdy_executor = λ o w. (none, w);
  stream = λ o w. (
    record { output = "done"; reader_err = none; writer_err = none },
    ("exec " <> join o.command " ") ∷ w,
  );
  exec_retry_count = 8;
  start_backoff = λ n w. (9, w);
  build_token = λ s w. (ok 1, w);
  sign_token = λ t key w. (ok "token", w);
  grpc_dial = λ addr token w. (ok 7, ("dial " <> addr) ∷ w);
  grpc_exec = λ c r w. (
    ok (record {
      output = "agent";
      success = true;
      exit_code = 0;
      error_message = "";
      elapsed_time_sec = 0;
    }),
    "grpc exec" ∷ w,
  );
  grpc_finish = λ c w. (none, "grpc finish" ∷ w);
  create_job = λ b w. (ok "kubejob-x", "create job" ∷ w);
  delete_job = λ s w. (none, ("delete job " <> s) ∷ w);
  list_pods = λ s w. (none, none, w);
  delete_pod = λ s w. (none, ("delete pod " <> s) ∷ w);
  watch = λ s w. (ok [], w);
}

abbrev pub main_container : Container
main_container = record {
  name = "main";
  image = "golang";
  command = "go" ∷ [];
  args = "version" ∷ [];
  env = [];
  working_dir = "";
  termination_message_path = "";
}

abbrev pub first_init : Container
first_init = record main_container { name = "first" }

abbrev pub status_of : String → Bool → ContainerStatus
status_of name up = record {
  name = name;
  ready = true;
  state = record { waiting = none; running = up; terminated = none };
}

abbrev pub pod_in : PodPhase → Pod
pod_in phase = record {
  name = "pod";
  namespace = "default";
  labels = [];
  spec = record {
    init_containers = first_init ∷ [];
    containers = main_container ∷ [];
    restart_policy = "Never";
  };
  status = record {
    phase = phase;
    pod_ip = "10.0.0.1";
    init_container_statuses = status_of "first" true ∷ [];
    container_statuses = status_of "main" true ∷ [];
  };
}

abbrev pub executor_of : Container → JobExecutor
executor_of c = record {
  target = record {
    container = c;
    container_idx = 0;
    pod = some (pod_in running);
    agent_cfg = none;
    agent_port = 0;
    agent_client = none;
  };
  command = c.command;
  args = c.args;
  is_running = false;
  stopped = false;
  err = none;
}

abbrev pub agent_config : AgentConfig
agent_config = record {
  installed_paths = ("main", "/bin/kubejob-agent") ∷ ("first", "/bin/kubejob-agent") ∷ [];
  allocation_start_port = 5000;
  last_allocated_port = 0;
  exclude_ports = 5002 ∷ 5001 ∷ [];
  private_key = 1;
  public_key_pem = "pem";
}

abbrev pub quiet : Handler Calls
quiet e w = (none, e, "handler" ∷ w)

abbrev pub one_hook : JobInit Calls
one_hook = record {
  done = false;
  containers = first_init ∷ [];
  executors = executor_of first_init ∷ [];
  executed = [];
  step_num = 0;
  handler = quiet;
  agent_cfg = none;
}

abbrev pub step_before : PreInit Calls
step_before = record {
  exec = some (executor_of main_container);
  container = main_container;
  callback = some quiet;
  done = false;
}

abbrev pub batch_job : BatchJob
batch_job = record {
  name = "";
  generate_name = "kubejob-";
  labels = some (("kubejob.io/id", "abc") ∷ []);
  spec = (pod_in running).spec;
  backoff_limit = some 0;
}
