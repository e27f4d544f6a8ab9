-- ===== src/Http/Head.antt =====
-- `http_write_head` of src/interface/http.c: the head of a response, or none where it returns -1.
use cs370_term_project.Prelude.{ℕ, Option, none, some, [], ◌++◌, leb, ◌==◌, if◌then◌else◌, length}
use cs370_term_project.Prelude.Bytes.{Bytes}
use cs370_term_project.Text.{codes, print_number}

unfoldable pub status_text : ℕ → Option Bytes
status_text status =
    if status == 200
    then some (codes "OK")
    else if status == 400
    then some (codes "Bad Request")
    else if status == 404
    then some (codes "Not Found")
    else if status == 405
    then some (codes "Method Not Allowed")
    else if status == 431
    then some (codes "Request Header Fields Too Large")
    else if status == 500
    then some (codes "Internal Server Error")
    else if status == 503
    then some (codes "Service Unavailable")
    else none

abbrev pub allow : ℕ → Bytes
allow status = if status == 405 then codes "Allow: GET\r\n" else []

unfoldable pub head_text : ℕ → Bytes → Bytes → ℕ → Bytes
head_text status text ctype body_len =
    codes "HTTP/1.1 "
    ++ (print_number 10 status
        ++ (codes " "
            ++ (text
                ++ (codes "\r\n"
                    ++ (codes "Content-Type: "
                        ++ (ctype
                            ++ (codes "\r\n"
                                ++ (codes "Content-Length: "
                                    ++ (print_number 10 body_len
                                        ++ (codes "\r\n"
                                            ++ (codes "Connection: close\r\n"
                                                ++ (codes "Cache-Control: no-store\r\n"
                                                    ++ (codes "X-Content-Type-Options: nosniff\r\n"
                                                        ++ (allow status
                                                            ++ codes "\r\n"))))))))))))))

-- snprintf into `cap` bytes, the NUL among them
abbrev pub fit : ℕ → Bytes → Option Bytes
fit cap head = if leb cap (length head) then none else some head

unfoldable pub write_head : ℕ → ℕ → Option Bytes → Option Bytes → ℕ → Option Bytes
write_head cap status none ctype body_len = none
write_head cap status (some text) none body_len = none
write_head cap status (some text) (some ctype) body_len =
    fit cap (head_text status text ctype body_len)

-- The type is NULL or its bytes.
unfoldable pub http_write_head : ℕ → ℕ → Option Bytes → ℕ → Option Bytes
http_write_head cap status ctype body_len =
    write_head cap status (status_text status) ctype body_len
