-- ===== src/Codes.antt =====
-- inc/http_codes.h: the status codes and reason phrases that the server itself uses.
use http_c.Prelude.Text.{bytes}
use http_c.Common.{Bytes}

abbrev pub code_200 : Bytes
code_200 = bytes "200"

abbrev pub reason_200 : Bytes
reason_200 = bytes "OK"

abbrev pub code_404 : Bytes
code_404 = bytes "404"

abbrev pub reason_404 : Bytes
reason_404 = bytes "Not Found"

abbrev pub code_405 : Bytes
code_405 = bytes "405"

abbrev pub reason_405 : Bytes
reason_405 = bytes "Method Not Allowed"

abbrev pub code_413 : Bytes
code_413 = bytes "413"

abbrev pub reason_413 : Bytes
reason_413 = bytes "Payload Too Large"

abbrev pub code_503 : Bytes
code_503 = bytes "503"

abbrev pub reason_503 : Bytes
reason_503 = bytes "Service Unavailable"

abbrev pub code_504 : Bytes
code_504 = bytes "504"

abbrev pub reason_504 : Bytes
reason_504 = bytes "Gateway Timeout"
