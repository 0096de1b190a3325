-- ===== src/Codegen/Preamble.antt =====
-- src/codegen/codegen.c: the C text in front of each program, line by line.
use kratos_lang.Prelude.{Bytes, codes, List, [], ◌∷◌}
use kratos_lang.Codegen.Emitter.{Emit, ◌>>◌, put, skip}

abbrev pub put_lines : List Bytes → Emit
put_lines [] = skip
put_lines (line ∷ lines) = do put line; put_lines lines

-- The includes and the arrays.
unfoldable pub array_text : List Bytes
array_text =
    codes "/* Generated by kratosc --emit-c */\n"
    ∷ codes "#include <stdio.h>\n"
    ∷ codes "#include <stdint.h>\n"
    ∷ codes "#include <stdlib.h>\n"
    ∷ codes "#include <string.h>\n\n"
    ∷ codes "typedef struct { void *items; size_t count; } KArr;\n"
    ∷ codes "static void *k_arr_index(KArr array, int64_t index, size_t item_size) {\n"
    ∷ codes "    if (index < 0 || (uint64_t)index >= array.count) {\n"
    ∷ codes "        fprintf(stderr, \"kratos: array index out of bounds\\n\");\n"
    ∷ codes "        exit(EXIT_FAILURE);\n"
    ∷ codes "    }\n"
    ∷ codes "    return (char *)array.items + (size_t)index * item_size;\n"
    ∷ codes "}\n\n"
    ∷ codes "KArr k_arr_from_values(const int64_t *values, size_t count) {\n"
    ∷ codes "    KArr result;\n"
    ∷ codes "    result.count = count;\n"
    ∷ codes "    result.items = count == 0 ? NULL : calloc(count, sizeof(int64_t));\n"
    ∷ codes "    if (count > 0 && result.items == NULL) exit(EXIT_FAILURE);\n"
    ∷ codes "    if (count > 0) memcpy(result.items, values, count * sizeof(int64_t));\n"
    ∷ codes "    return result;\n"
    ∷ codes "}\n\n"
    ∷ codes "KArr k_arr_from_arrays(const KArr *values, size_t count) {\n"
    ∷ codes "    KArr result;\n"
    ∷ codes "    result.count = count;\n"
    ∷ codes "    result.items = count == 0 ? NULL : calloc(count, sizeof(KArr));\n"
    ∷ codes "    if (count > 0 && result.items == NULL) exit(EXIT_FAILURE);\n"
    ∷ codes "    if (count > 0) memcpy(result.items, values, count * sizeof(KArr));\n"
    ∷ codes "    return result;\n"
    ∷ codes "}\n\n"
    ∷ []

-- `k_shout`.
unfoldable pub shout_text : List Bytes
shout_text =
    codes "#define k_shout(v) _Generic((v), \\\n"
    ∷ codes "    int64_t: k_shout_int, \\\n"
    ∷ codes "    int: k_shout_int32, \\\n"
    ∷ codes "    double: k_shout_float, \\\n"
    ∷ codes "    char: k_shout_char, \\\n"
    ∷ codes "    char *: k_shout_string, \\\n"
    ∷ codes "    const char *: k_shout_string, \\\n"
    ∷ codes "    KArr: k_shout_arr, \\\n"
    ∷ codes "    default: k_shout_int \\\n"
    ∷ codes ")(v)\n\n"
    ∷ codes "static void k_shout_int(int64_t v) { printf(\"%lld\\n\", (long long)v); }\n"
    ∷ codes "static void k_shout_int32(int v) { printf(\"%d\\n\", v); }\n"
    ∷ codes "static void k_shout_float(double v) { printf(\"%g\\n\", v); }\n"
    ∷ codes "static void k_shout_char(char v) { printf(\"%c\\n\", v); }\n"
    ∷ codes "static void k_shout_string(const char *v) { printf(\"%s\\n\", v ? v : \"\"); }\n"
    ∷ codes "static void k_shout_arr(KArr v) {\n"
    ∷ codes "    printf(\"[\");\n"
    ∷ codes "    for (size_t i = 0; i < v.count; i++) {\n"
    ∷ codes "        if (i) printf(\", \");\n"
    ∷ codes "        printf(\"%lld\", (long long)((int64_t *)v.items)[i]);\n"
    ∷ codes "    }\n"
    ∷ codes "    printf(\"]\\n\");\n"
    ∷ codes "}\n"
    ∷ []

-- Strings and slices.
unfoldable pub string_text : List Bytes
string_text =
    codes "const char *k_concat(const char *left, const char *right) {\n"
    ∷ codes "    size_t left_len = strlen(left ? left : \"\");\n"
    ∷ codes "    size_t right_len = strlen(right ? right : \"\");\n"
    ∷ codes "    char *result = malloc(left_len + right_len + 1);\n"
    ∷ codes "    if (!result) exit(EXIT_FAILURE);\n"
    ∷ codes "    memcpy(result, left ? left : \"\", left_len);\n"
    ∷ codes "    memcpy(result + left_len, right ? right : \"\", right_len + 1);\n"
    ∷ codes "    return result;\n"
    ∷ codes "}\n"
    ∷ codes "const char *k_slice_string(const char *text, int64_t start, int64_t end) {\n"
    ∷ codes "    size_t length = strlen(text ? text : \"\");\n"
    ∷ codes "    if (start < 0 || end < start || (size_t)end > length) exit(EXIT_FAILURE);\n"
    ∷ codes "    size_t count = (size_t)(end - start);\n"
    ∷ codes "    char *result = malloc(count + 1);\n"
    ∷ codes "    if (!result) exit(EXIT_FAILURE);\n"
    ∷ codes "    memcpy(result, (text ? text : \"\") + start, count);\n"
    ∷ codes "    result[count] = '\\0';\n"
    ∷ codes "    return result;\n"
    ∷ codes "}\n"
    ∷ codes "KArr k_slice_array(KArr source, int64_t start, int64_t end) {\n"
    ∷ codes "    if (start < 0 || end < start || (size_t)end > source.count) exit(EXIT_FAILURE);\n"
    ∷ codes
        "    return k_arr_from_values(((int64_t *)source.items) + start, (size_t)(end - start));\n"
    ∷ codes "}\n"
    ∷ codes "#define k_slice(source, start, end) _Generic((source), \\\n"
    ∷ codes "    KArr: k_slice_array, \\\n"
    ∷ codes "    char *: k_slice_string, \\\n"
    ∷ codes "    const char *: k_slice_string \\\n"
    ∷ codes ")(source, start, end)\n"
    ∷ []

-- The conversions.
unfoldable pub conversion_text : List Bytes
conversion_text =
    codes
      "const char *k_to_string_int64(int64_t value) { static char text[64]; snprintf(text, sizeof(text), \"%lld\", (long long)value); return text; }\n"
    ∷ codes
        "const char *k_to_string_int(int value) { static char text[64]; snprintf(text, sizeof(text), \"%d\", value); return text; }\n"
    ∷ codes
        "const char *k_to_string_float(double value) { static char text[64]; snprintf(text, sizeof(text), \"%g\", value); return text; }\n"
    ∷ codes
        "const char *k_to_string_char(char value) { static char text[2]; text[0] = value; text[1] = '\\0'; return text; }\n"
    ∷ codes "const char *k_to_string_string(const char *value) { return value ? value : \"\"; }\n"
    ∷ codes "#define k_to_string(value) _Generic((value), \\\n"
    ∷ codes
        "    char *: k_to_string_string, const char *: k_to_string_string, char: k_to_string_char, \\\n"
    ∷ codes "    default: k_to_string_float \\\n"
    ∷ codes ")(value)\n"
    ∷ codes "int64_t k_to_int_int64(int64_t value) { return value; }\n"
    ∷ codes "int64_t k_to_int_float(double value) { return (int64_t)value; }\n"
    ∷ codes "int64_t k_to_int_int(int value) { return (int64_t)value; }\n"
    ∷ codes "int64_t k_to_int_char(char value) { return (int64_t)value; }\n"
    ∷ codes
        "int64_t k_to_int_string(const char *value) { char *end; long long result = strtoll(value ? value : \"\", &end, 10); if (end == (value ? value : \"\") || *end != '\\0') exit(EXIT_FAILURE); return (int64_t)result; }\n"
    ∷ codes
        "#define k_to_int(value) _Generic((value), char *: k_to_int_string, const char *: k_to_int_string, default: k_to_int_float)(value)\n"
    ∷ codes "double k_to_float_float(double value) { return value; }\n"
    ∷ codes
        "double k_to_float_string(const char *value) { char *end; double result = strtod(value ? value : \"\", &end); if (end == (value ? value : \"\") || *end != '\\0') exit(EXIT_FAILURE); return result; }\n"
    ∷ codes
        "#define k_to_float(value) _Generic((value), char *: k_to_float_string, const char *: k_to_float_string, default: k_to_float_float)(value)\n"
    ∷ []

-- `k_plus` and `k_len`.
unfoldable pub operator_text : List Bytes
operator_text =
    codes "double k_plus_numeric(double left, double right) { return left + right; }\n"
    ∷ codes "#define k_plus(left, right) _Generic((left), \\\n"
    ∷ codes "    char *: k_concat, \\\n"
    ∷ codes "    const char *: k_concat, \\\n"
    ∷ codes "    default: k_plus_numeric \\\n"
    ∷ codes ")(left, right)\n"
    ∷ codes "int64_t k_len_string(const char *v) { return (int64_t)strlen(v ? v : \"\"); }\n"
    ∷ codes "int64_t k_len_array(KArr v) { return (int64_t)v.count; }\n"
    ∷ codes "#define k_len(v) _Generic((v), \\\n"
    ∷ codes "    KArr: k_len_array, \\\n"
    ∷ codes "    char *: k_len_string, \\\n"
    ∷ codes "    const char *: k_len_string \\\n"
    ∷ codes ")(v)\n\n"
    ∷ []

unfoldable pub emit_runtime : Emit
unfolding array_text shout_text string_text conversion_text operator_text
emit_runtime = do
  put_lines array_text
  put_lines shout_text
  put_lines string_text
  put_lines conversion_text
  put_lines operator_text
