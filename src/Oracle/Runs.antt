-- ===== src/Oracle/Runs.antt =====
-- Tests of src/verify/content_oracle.cpp.
use tftp_stress_test.Common.{true, some, text}
use tftp_stress_test.Oracle.{compare_files}
use tftp_stress_test.Oracle.Laws.{Justifies, compare_files-Justifies}

compare_files-Justifies_example :
    Justifies
      (compare_files (text "a", some (text "x\n")) (text "b", some (text "y")) true).verdict
      (some (text "x\n"))
      (some (text "y"))
      true
compare_files-Justifies_example =
    compare_files-Justifies (text "a") (text "b") (some (text "x\n")) (some (text "y")) true
