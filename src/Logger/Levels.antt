-- ===== src/Logger/Levels.antt =====
-- nimblenet/util/include/Logger.h: the templates that write a line. `message` is what formatlog makes
-- of the format and the arguments; what is printed on the console is left out.
use nimble_sdk.Prelude.{Text, codes}
use nimble_sdk.Logger.{Logger, Moment, write_log}

unfoldable pub log_debug : Moment → Text → Logger → Logger
log_debug m message l = write_log m message (codes "DEBUG:::") l

unfoldable pub log_info : Moment → Text → Logger → Logger
log_info m message l = write_log m message (codes "INFO:::") l

unfoldable pub log_warn : Moment → Text → Logger → Logger
log_warn m message l = write_log m message (codes "WARN:::") l

unfoldable pub log_error : Moment → Text → Logger → Logger
log_error m message l = write_log m message (codes "ERROR:::") l

unfoldable pub log_fatal : Moment → Text → Logger → Logger
log_fatal m message l = write_log m message (codes "FATAL:::") l

unfoldable pub outside_log : Moment → Text → Logger → Logger
outside_log m message l = write_log m message (codes "OUTSIDE:::") l
