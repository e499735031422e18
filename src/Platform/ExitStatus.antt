-- ===== src/Platform/ExitStatus.antt =====
-- platform/exit_status.cpp: decoding a wait status. The W* macros are <sys/wait.h>'s, which is not
-- part of the repository: they are the parameter `os`. `describe` only words what the others say.
use load_forge.Common.{ℕ, Bool, true, false, ◌&&◌, ◌==◌, if◌then◌else◌}

-- The macros the decoder calls, and SIGKILL of <signal.h>.
pub record WaitMacros : Type 0 where
  pub wifexited : ℕ → Bool
  pub wifsignaled : ℕ → Bool
  pub wifstopped : ℕ → Bool
  pub wifcontinued : ℕ → Bool
  pub wcoredump : ℕ → Bool
  pub wexitstatus : ℕ → ℕ
  pub wtermsig : ℕ → ℕ
  pub wstopsig : ℕ → ℕ

pub data Termination : Type 0 where
  exited signalled stopped continued unrecognised : Termination

-- The number of a SIGKILL on Linux.
abbrev pub sigkill : ℕ
sigkill = 9

unfoldable pub termination : WaitMacros → ℕ → Termination
termination os raw =
    if os.wifexited raw
    then exited
    else if os.wifsignaled raw
    then signalled
    else if os.wifstopped raw
    then stopped
    else if os.wifcontinued raw
    then continued
    else unrecognised

unfoldable pub code : WaitMacros → ℕ → ℕ
code os raw = if os.wifexited raw then os.wexitstatus raw else 0

unfoldable pub signal : WaitMacros → ℕ → ℕ
signal os raw =
    if os.wifsignaled raw then os.wtermsig raw else if os.wifstopped raw then os.wstopsig raw else 0

unfoldable pub dumped_core : WaitMacros → ℕ → Bool
dumped_core os raw = os.wifsignaled raw && os.wcoredump raw

unfoldable pub is_exited : Termination → Bool
is_exited exited = true
is_exited _ = false

unfoldable pub is_signalled : Termination → Bool
is_signalled signalled = true
is_signalled _ = false

unfoldable pub is_success : WaitMacros → ℕ → Bool
unfolding termination code is_exited
is_success os raw = is_exited (termination os raw) && (code os raw == 0)

unfoldable pub killed_by_sigkill : WaitMacros → ℕ → Bool
unfolding termination signal is_signalled
killed_by_sigkill os raw = is_signalled (termination os raw) && (signal os raw == sigkill)
