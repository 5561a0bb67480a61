-- ===== src/Cluster.antt =====
-- What the program calls and does not implement: the Kubernetes API (client-go), the exec streams
-- (remotecommand), gRPC, the JWT library, the backoff policy and the standard output. Each call
-- takes the state `W` of the world outside and returns the next one; nothing is assumed of them.
use kubejob.Prelude.{ℕ, String, Bool, Option, List}
use kubejob.Kube.{Pod, EnvVar, BatchJob, EventObject}
use kubejob.Errors.{Err, Result}

-- `corev1.PodExecOptions` with the pod that the request names.
pub record ExecOptions : Type 0 where
  pub namespace : String
  pub pod_name : String
  pub container : String
  pub command : List String
  pub stdin : Bool

-- What is left when an exec stream has ended: the bytes read, and the error of each end.
pub record StreamResult : Type 0 where
  pub output : String
  pub reader_err : Option Err
  pub writer_err : Option Err

-- agent.ExecRequest and agent.ExecResponse
pub record ExecRequest : Type 0 where
  pub command : List String
  pub env : List EnvVar
  pub working_dir : String

pub record ExecResponse : Type 0 where
  pub output : String
  pub success : Bool
  pub exit_code : ℕ
  pub error_message : String
  pub elapsed_time_sec : ℕ

-- A connection, a token and a key are handles of the libraries that made them.
pub record Cluster (W : Type 0) : Type 0 where
  -- fmt.Println, and fmt.Fprintf to os.Stderr
  pub println : String → W → W
  pub eprint : String → W → W
  -- remotecommand.NewSPDYExecutor, and Stream on what it returns
  pub new_spdy_executor : ExecOptions → W → Option Err × W
  pub stream : ExecOptions → W → StreamResult × W
  -- `ExecRetryCount`, a variable of the package that its users can set (it starts as 8), while the
  -- operations run
  pub exec_retry_count : ℕ
  -- policy.Start of a policy with so many retries: how often backoff.Continue will answer true
  pub start_backoff : ℕ → W → ℕ × W
  -- jwt.NewBuilder with the issuer, and jwt.Sign with the key
  pub build_token : String → W → Result ℕ × W
  pub sign_token : ℕ → ℕ → W → Result String × W
  -- grpc.Dial with the address and the signed token, and the calls of the agent service
  pub grpc_dial : String → String → W → Result ℕ × W
  pub grpc_exec : ℕ → ExecRequest → W → Result ExecResponse × W
  pub grpc_finish : ℕ → W → Option Err × W
  -- the job and pod clients; `list_pods` returns its list, if any, beside its error
  pub create_job : BatchJob → W → Result String × W
  pub delete_job : String → W → Option Err × W
  pub list_pods : String → W → Option (List Pod) × Option Err × W
  pub delete_pod : String → W → Option Err × W
  -- podClient.Watch: the events of the channel up to its end
  pub watch : String → W → Result (List EventObject) × W
