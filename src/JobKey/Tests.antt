-- ===== src/JobKey/Tests.antt =====
-- Runs of job ids, and the theorems about them on two jobs.
use whatsapp_email_assistant.Common.{◌≡◌, refl, List, [], ◌∷◌, Text, codes}
use whatsapp_email_assistant.AppError.{ok, err, unknown}
use whatsapp_email_assistant.JobKey.{clean, job_key}

abbrev send_parts : List Text
send_parts = codes "send" ∷ codes "7b:3f" ∷ []

abbrev other_parts : List Text
other_parts = codes "send" ∷ codes "7b 3f" ∷ []

send_key : job_key send_parts ≡ ok (codes "send~7b_3f")
unfolding job_key clean
send_key = refl

other_key : job_key other_parts ≡ ok (codes "send~7b_3f")
unfolding job_key clean
other_key = refl

empty_part_throws : job_key (codes "send" ∷ [] ∷ []) ≡ err unknown
unfolding job_key clean
empty_part_throws = refl
