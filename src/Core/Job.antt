-- ===== src/Core/Job.antt =====
-- core/src/job.rs: what names a synchronization.
use trsync.Base.{ℕ, Eq, nat_eq, list_eq}
use trsync.Base.Lines.{Text}

pub record JobIdentifier : Type 0 where
  pub instance_name : Text
  pub workspace_id : ℕ
  pub workspace_name : Text

number_discrete : Discrete ℕ
unfolding nat_eq
number_discrete = nat_eq.dec

text_discrete : Discrete Text
unfolding list_eq nat_eq
text_discrete = list_eq.dec

job_discrete : Discrete JobIdentifier
job_discrete = hlevel (text_discrete, number_discrete)

instance unfoldable pub job_eq : Eq JobIdentifier
unfolding job_discrete text_discrete number_discrete
job_eq = record { dec = job_discrete }
