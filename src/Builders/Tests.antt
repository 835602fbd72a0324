-- ===== src/Builders/Tests.antt =====
-- A text that is cut at a word, and one that has no word to cut at.
use whatsapp_email_assistant.Common.{◌≡◌, refl, ◌++◌, codes}
use whatsapp_email_assistant.Builders.{clamp, ellipsis}

at_word_run : clamp (codes "running ten minutes late") 14 ≡ codes "running ten" ++ ellipsis
unfolding clamp
at_word_run = refl

long_word_run : clamp (codes "uninterruptedly") 6 ≡ codes "unint" ++ ellipsis
unfolding clamp
long_word_run = refl
